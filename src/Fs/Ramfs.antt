-- ===== src/Fs/Ramfs.antt =====
-- src/fs/ramfs.rs. An `Arc<Dir>` or `Arc<RamfsFile>` is an index into the directories or files
-- that were ever made; what is no longer reachable stays there unseen. The directory 0 is the root.
pub mod Ops
pub mod Objects
pub mod Data
pub mod Walk
pub mod Entries
pub mod Behaviour
pub mod Create
pub mod Invariant
pub mod Reached
pub mod Effects
use os_test.Prelude.{
  ℕ, zero, suc, ◌+◌, Bool, true, false, not, Option, none, some, List, [], ◌∷◌, ◌++◌, map, ◌==◌,
  if◌then◌else◌, length, get_elem?, set, drop,
}
use os_test.Prelude.Outcome.{Outcome, done, panic, ◌>>=◌, unwrap}
use os_test.Prelude.Result.{ok, err}
use os_test.Fs.Str.{Str, slash, str_eq}
use os_test.Fs.FilePath
use os_test.Fs.FilePath.{
  FilePath, root, parent, has_root, is_root, filename, split_from_top, relative_to,
}
use os_test.Fs.VfsError.{
  VfsResult, FileType, DirEntry, path_does_not_exist, directory_does_not_exist, path_already_exists,
  path_is_not_absolute, path_does_not_have_a_filename,
}

abbrev pub DirId : Type 0
DirId = ℕ

abbrev pub FileId : Type 0
FileId = ℕ

pub data RamfsDirEntry : Type 0 where
  dir : DirId → RamfsDirEntry
  file : FileId → RamfsDirEntry

pub record RamfsFile : Type 0 where
  pub name : FilePath
  pub data_ : List ℕ
  pub parent_dir : DirId

pub record Dir : Type 0 where
  pub name : FilePath
  pub entries : List RamfsDirEntry
  pub parent_dir : DirId

pub record Ramfs : Type 0 where
  pub dirs : List Dir
  pub files : List RamfsFile

pub record RamfsFileHandle : Type 0 where
  pub inner : FileId
  pub pos : ℕ

abbrev pub new_handle : FileId → RamfsFileHandle
new_handle id = record { inner = id; pos = 0 }

abbrev pub root_id : DirId
root_id = 0

-- `Ramfs::new`
abbrev pub new : Ramfs
new = record { dirs = record { name = root; entries = []; parent_dir = root_id } ∷ []; files = [] }

-- The objects behind the references. No operation makes a reference to an object that is not there.
abbrev pub dir_at : Ramfs → DirId → Dir
dir_at fs d = elim (get_elem? fs.dirs d) [
  | none ↦ record { name = []; entries = []; parent_dir = root_id }
  | some found ↦ found
]

abbrev pub file_at : Ramfs → FileId → RamfsFile
file_at fs f = elim (get_elem? fs.files f) [
  | none ↦ record { name = []; data_ = []; parent_dir = root_id }
  | some found ↦ found
]

-- `RamfsDirEntry::name` and `RamfsDirEntry::file_type`
abbrev pub entry_name : Ramfs → RamfsDirEntry → FilePath
entry_name fs (dir d) = (dir_at fs d).name
entry_name fs (file f) = (file_at fs f).name

abbrev pub entry_type : RamfsDirEntry → FileType
entry_type (dir d) = FileType.directory
entry_type (file f) = FileType.file

-- The loop of `find_dir` over the entries; `recurse` is the call on a directory of the entries.
pub find_dir_in :
    (recurse : DirId → FilePath → Option DirId)
    → Ramfs
    → FilePath
    → List RamfsDirEntry
    → Option DirId
unfolding split_from_top str_eq
find_dir_in recurse fs path [] = none
find_dir_in recurse fs path (file f ∷ entries) = find_dir_in recurse fs path entries
find_dir_in recurse fs path (dir d ∷ entries) =
    let others = find_dir_in recurse fs path entries in
    elim (split_from_top path) [
      | some (top, rest) ↦ if str_eq (dir_at fs d).name top then recurse d rest else others
      | none ↦ if str_eq (dir_at fs d).name path then some d else others
    ]

-- A recursive call has a shorter path, so that a fuel above the length of the path is enough.
unfoldable pub find_dir : ℕ → Ramfs → DirId → FilePath → Option DirId
unfolding find_dir_in
find_dir zero fs d path = none
find_dir (suc fuel) fs d path =
    find_dir_in (λ e rest. find_dir fuel fs e rest) fs path (dir_at fs d).entries

-- The loop of `find_file`.
pub find_file_in :
    (recurse : DirId → FilePath → Option RamfsFileHandle)
    → Ramfs
    → FilePath
    → List RamfsDirEntry
    → Option RamfsFileHandle
unfolding split_from_top str_eq
find_file_in recurse fs path [] = none
find_file_in recurse fs path (entry ∷ entries) =
    let others = find_file_in recurse fs path entries in
    elim (split_from_top path) [
      | some (top, rest) ↦ elim entry [
        | dir d ↦ if str_eq (dir_at fs d).name top then recurse d rest else others
        | file f ↦ others
      ]
      | none ↦ elim entry [
        | dir d ↦ others
        | file f ↦ if str_eq (file_at fs f).name path then some (new_handle f) else others
      ]
    ]

unfoldable pub find_file : ℕ → Ramfs → DirId → FilePath → Option RamfsFileHandle
unfolding find_file_in
find_file zero fs d path = none
find_file (suc fuel) fs d path =
    find_file_in (λ e rest. find_file fuel fs e rest) fs path (dir_at fs d).entries

-- The calls from the root.
abbrev pub find_dir_from_root : Ramfs → FilePath → Option DirId
find_dir_from_root fs path = find_dir (suc (length path)) fs root_id path

abbrev pub find_file_from_root : Ramfs → FilePath → Option RamfsFileHandle
find_file_from_root fs path = find_file (suc (length path)) fs root_id path

-- `entries.iter().find(|e| e.name() == name)`
unfoldable pub find_entry : Ramfs → FilePath → List RamfsDirEntry → Option RamfsDirEntry
unfolding str_eq
find_entry fs name [] = none
find_entry fs name (e ∷ entries) =
    if str_eq (entry_name fs e) name then some e else find_entry fs name entries

-- `retain(|e| e.name() != name)`
unfoldable pub without_entry : Ramfs → FilePath → List RamfsDirEntry → List RamfsDirEntry
unfolding str_eq
without_entry fs name [] = []
without_entry fs name (e ∷ entries) =
    let rest = without_entry fs name entries in
    if str_eq (entry_name fs e) name then rest else e ∷ rest
