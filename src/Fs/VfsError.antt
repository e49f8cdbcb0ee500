-- ===== src/Fs/VfsError.antt =====
-- The error and the result of the file systems, and the types of entries, of src/fs/vfs.rs.
use os_test.Prelude.Result
use os_test.Fs.FilePath.{FilePath}

pub data VfsError : Type 0 where
  path_does_not_exist directory_does_not_exist read_failed write_failed : VfsError
  path_already_exists path_is_not_absolute path_does_not_have_a_filename : VfsError

abbrev pub VfsResult {ℓ} : Type ℓ → Type ℓ
VfsResult A = Result.Result A VfsError

pub data FileType : Type 0 where
  file directory : FileType

pub record DirEntry : Type 0 where
  pub file_type : FileType
  pub path : FilePath
