-- ===== src/Fs/Vfs.antt =====
-- `Vfs` of src/fs/vfs.rs: a root file system and others mounted at paths. A file system is what
-- answers the calls of the trait `FileSystem`. The methods that are still `todo!()` panic.
pub mod Mounts
use os_test.Prelude.{ℕ, Bool, true, false, Option, none, some, List, [], ◌∷◌, ◌++◌, if◌then◌else◌}
use os_test.Prelude.Outcome.{Outcome, done, panic}
use os_test.Prelude.Result.{Result, ok, err, is_ok, or}
use os_test.Fs.Str.{str_eq}
use os_test.Fs.FilePath.{FilePath, has_root, relative_to}
use os_test.Fs.VfsError.{
  VfsError, VfsResult, FileType, DirEntry, path_does_not_exist, path_already_exists,
  path_is_not_absolute,
}

-- `Box<dyn File>`: a file of some type, with the methods of the trait `File` of that type.
pub record DynFile : Type 1 where
  pub Data : Type 0
  pub inner : Data
  pub read : Data → (buf : List ℕ) → Outcome (Data × List ℕ × VfsResult ℕ)
  pub write : Data → (buf : List ℕ) → Outcome (Data × VfsResult ℕ)

-- The answers of a file system in its present state; `File` is its type of files. The methods that
-- `Vfs` calls are `open_file` and `file_type`.
pub record FileSystem {ℓ} (File : Type ℓ) : Type ℓ where
  pub open_file : FilePath → VfsResult File
  pub file_type : FilePath → VfsResult FileType

-- The default method.
abbrev pub exists {ℓ} : {File : Type ℓ} → FileSystem File → FilePath → Bool
exists fs path = is_ok (fs.file_type path)

abbrev pub DynFileSystem : Type 1
DynFileSystem = FileSystem DynFile

pub record Mount : Type 1 where
  pub path : FilePath
  pub filesystem : DynFileSystem

pub record Vfs : Type 1 where
  pub root : DynFileSystem
  pub mounts : List Mount

-- `mounts.iter().find(|m| m.path == path)`
unfoldable pub find_mount : FilePath → List Mount → Option Mount
unfolding str_eq
find_mount path [] = none
find_mount path (m ∷ mounts) = if str_eq m.path path then some m else find_mount path mounts

pub mount : Vfs → DynFileSystem → FilePath → Vfs × VfsResult (Unit {0})
unfolding find_mount
mount vfs fs path =
    if has_root path
    then if exists vfs.root path
      then (vfs, err path_already_exists)
      else elim (find_mount path vfs.mounts) [
        | some m ↦ (vfs, err path_already_exists)
        | none ↦ (
          record vfs { mounts = vfs.mounts ++ record { path = path; filesystem = fs } ∷ [] },
          ok tt,
        )
      ]
    else (vfs, err path_is_not_absolute)

-- The loop of `open_file_in_mounts`.
pub open_file_in : FilePath → List Mount → VfsResult DynFile
open_file_in path [] = err path_does_not_exist
open_file_in path (m ∷ mounts) = elim (relative_to path m.path) [
  | some rest ↦ m.filesystem.open_file rest
  | none ↦ open_file_in path mounts
]

pub open_file_in_mounts : Vfs → FilePath → VfsResult DynFile
unfolding open_file_in
open_file_in_mounts vfs path = open_file_in path vfs.mounts

unfoldable pub open_file : Vfs → FilePath → VfsResult DynFile
unfolding open_file_in_mounts
open_file vfs path =
    if has_root path
    then or (vfs.root.open_file path) (open_file_in_mounts vfs path)
    else err path_is_not_absolute

-- The methods that are not written yet.
abbrev file_type : Vfs → FilePath → Outcome (VfsResult FileType)
file_type vfs path = panic

abbrev create_file : Vfs → FilePath → Outcome (VfsResult DynFile)
create_file vfs path = panic

abbrev create_dir : Vfs → FilePath → Outcome (VfsResult (Unit {0}))
create_dir vfs path = panic

abbrev delete : Vfs → FilePath → Outcome (VfsResult (Unit {0}))
delete vfs path = panic

abbrev open_dir : Vfs → FilePath → Outcome (VfsResult (List DirEntry))
open_dir vfs path = panic
