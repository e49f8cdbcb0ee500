-- ===== src/Fs/Ramfs/Ops.antt =====
-- The operations of src/fs/ramfs.rs: those of `File` on a handle, and those of `FileSystem`.
-- A call gives the new file system with the answer; `unwrap` and `Vec::insert` may panic.
use os_test.Prelude.{
  ℕ, zero, suc, ◌+◌, none, some, List, [], ◌∷◌, ◌++◌, map, if◌then◌else◌, length, set, drop,
}
use os_test.Prelude.Outcome.{Outcome, done, panic, ◌>>=◌, unwrap}
use os_test.Prelude.Result.{ok, err}
use os_test.Fs.FilePath
use os_test.Fs.FilePath.{
  FilePath, root, parent, has_root, is_root, filename, split_from_top, relative_to,
}
use os_test.Fs.VfsError.{
  VfsResult, FileType, DirEntry, path_does_not_exist, directory_does_not_exist, path_already_exists,
  path_is_not_absolute, path_does_not_have_a_filename,
}
use os_test.Fs.Ramfs.{
  Ramfs, Dir, DirId, RamfsDirEntry, RamfsFile, RamfsFileHandle, dir, file, new_handle, root_id,
  dir_at, file_at, entry_name, entry_type, find_dir_from_root, find_file_from_root, find_entry,
  without_entry,
}

-- The loop of `read` over the buffer and the rest of the data: the buffer afterwards, and the
-- count of the bytes read.
unfoldable pub read_into : (buf rest : List ℕ) → List ℕ × ℕ
read_into [] rest = ([], 0)
read_into (b ∷ buf) [] = (b ∷ buf, 0)
read_into (b ∷ buf) (byte ∷ rest) = let (buf', read) = read_into buf rest in (byte ∷ buf', suc read)

-- `File::read`: the handle, the buffer and the result.
unfoldable pub read : Ramfs → RamfsFileHandle → List ℕ → RamfsFileHandle × List ℕ × VfsResult ℕ
unfolding read_into
read fs h buf =
    let (buf', read) = read_into buf (drop h.pos (file_at fs h.inner).data_) in
    (record h { pos = h.pos + read }, buf', ok read)

-- `Vec::insert` panics behind the end.
unfoldable pub insert_at : ℕ → ℕ → List ℕ → Outcome (List ℕ)
insert_at zero byte xs = done (byte ∷ xs)
insert_at (suc i) byte [] = panic
insert_at (suc i) byte (x ∷ xs) = do xs' ← insert_at i byte xs; done (x ∷ xs')

-- The loop of `write`.
unfoldable pub write_from : (pos : ℕ) → (buf data_ : List ℕ) → (wrote : ℕ) → Outcome (List ℕ × ℕ)
unfolding insert_at
write_from pos [] data_ wrote = done (data_, wrote)
write_from pos (byte ∷ buf) data_ wrote = do
  data' ← insert_at (pos + wrote) byte data_
  write_from pos buf data' (wrote + 1)

-- `File::write`
unfoldable pub write :
    Ramfs → RamfsFileHandle → List ℕ → Outcome (Ramfs × RamfsFileHandle × VfsResult ℕ)
unfolding write_from
write fs h buf = do
  let target = file_at fs h.inner
  (data', wrote) ← write_from h.pos buf target.data_ 0
  done (
    record fs { files = set fs.files h.inner (record target { data_ = data' }) },
    record h { pos = h.pos + wrote },
    ok wrote,
  )

-- The directory of an entry as `file_type` and `delete` look for it.
unfoldable pub dir_of_existing : Ramfs → FilePath → Outcome (VfsResult DirId)
dir_of_existing fs parent = if is_root parent then done (ok root_id) else (do
  below ← unwrap (relative_to parent root)
  elim (find_dir_from_root fs below) [
    | none ↦ done (err path_does_not_exist)
    | some d ↦ done (ok d)
  ])

-- The directory of a new entry as `create_file` and `create_dir` look for it.
unfoldable pub dir_of_new : Ramfs → FilePath → Outcome (VfsResult DirId)
dir_of_new fs parent = if is_root parent then done (ok root_id) else (do
  (_, below) ← unwrap (split_from_top parent)
  elim (find_dir_from_root fs below) [
    | none ↦ done (err directory_does_not_exist)
    | some d ↦ done (ok d)
  ])

unfoldable pub file_type : Ramfs → FilePath → Outcome (VfsResult FileType)
unfolding dir_of_existing
file_type fs path =
    if has_root path
    then if is_root path then done (ok FileType.directory) else (do
      up ← unwrap (parent path)
      found ← dir_of_existing fs up
      elim found [
        | err e ↦ done (err e)
        | ok d ↦ (do
          called ← filename path
          name ← unwrap called
          elim (find_entry fs name (dir_at fs d).entries) [
            | none ↦ done (err path_does_not_exist)
            | some e ↦ done (ok (entry_type e))
          ])
      ])
    else done (err path_is_not_absolute)

unfoldable pub open_file : Ramfs → FilePath → VfsResult RamfsFileHandle
open_file fs path =
    if has_root path
    then elim (split_from_top path) [
      | none ↦ err path_does_not_have_a_filename
      | some (_, rest) ↦ elim (find_file_from_root fs rest) [
        | none ↦ err path_does_not_exist
        | some h ↦ ok h
      ]
    ]
    else err path_is_not_absolute

-- `dir.entries.write().push(entry)`
abbrev pub push_entry : Ramfs → DirId → RamfsDirEntry → Ramfs
push_entry fs d entry = record fs {
  dirs = set fs.dirs d (record (dir_at fs d) { entries = (dir_at fs d).entries ++ entry ∷ [] });
}

unfoldable pub create_file : Ramfs → FilePath → Outcome (Ramfs × VfsResult RamfsFileHandle)
unfolding dir_of_new
create_file fs path =
    if has_root path
    then elim (parent path) [
      | none ↦ done (fs, err path_does_not_have_a_filename)
      | some up ↦ (do
        found ← dir_of_new fs up
        elim found [
          | err e ↦ done (fs, err e)
          | ok d ↦ (do
            called ← filename path
            name ← unwrap called
            let id = length fs.files
            let made : RamfsFile = record { name = name; data_ = []; parent_dir = d }
            let grown = record fs { files = fs.files ++ made ∷ [] }
            done (push_entry grown d (file id), ok (new_handle id)))
        ])
    ]
    else done (fs, err path_is_not_absolute)

unfoldable pub create_dir : Ramfs → FilePath → Outcome (Ramfs × VfsResult (Unit {0}))
unfolding dir_of_new
create_dir fs path =
    if has_root path
    then elim (parent path) [
      | none ↦ done (fs, err path_already_exists)
      | some up ↦ (do
        found ← dir_of_new fs up
        elim found [
          | err e ↦ done (fs, err e)
          | ok d ↦ (do
            called ← filename path
            name ← unwrap called
            let id = length fs.dirs
            let made : Dir = record { name = name; entries = []; parent_dir = d }
            let grown = record fs { dirs = fs.dirs ++ made ∷ [] }
            done (push_entry grown d (dir id), ok tt))
        ])
    ]
    else done (fs, err path_is_not_absolute)

abbrev pub set_entries : Ramfs → DirId → List RamfsDirEntry → Ramfs
set_entries fs d entries = record fs {
  dirs = set fs.dirs d (record (dir_at fs d) { entries = entries });
}

unfoldable pub delete : Ramfs → FilePath → Outcome (Ramfs × VfsResult (Unit {0}))
unfolding dir_of_existing
delete fs path =
    if has_root path
    then if is_root path then done (set_entries fs root_id [], ok tt) else (do
      up ← unwrap (parent path)
      found ← dir_of_existing fs up
      elim found [
        | err e ↦ done (fs, err e)
        | ok d ↦ (do
          called ← filename path
          name ← unwrap called
          done (set_entries fs d (without_entry fs name (dir_at fs d).entries), ok tt))
      ])
    else done (fs, err path_is_not_absolute)

-- The list that the iterator of `open_dir` goes through.
pub listing : Ramfs → FilePath → DirId → List DirEntry
listing fs path d =
    map (λ e. record { file_type = entry_type e; path = FilePath.add path (entry_name fs e) })
      (dir_at fs d).entries

unfoldable pub open_dir : Ramfs → FilePath → Outcome (VfsResult (List DirEntry))
unfolding listing
open_dir fs path =
    if has_root path
    then if is_root path then done (ok (listing fs path root_id)) else (do
      below ← unwrap (relative_to path root)
      elim (find_dir_from_root fs below) [
        | none ↦ done (err path_does_not_exist)
        | some d ↦ done (ok (listing fs path d))
      ])
    else done (err path_is_not_absolute)
