-- ===== src/Fs/Ramfs/Invariant.antt =====
-- What holds of the store of src/fs/ramfs.rs between two calls: its references are to objects that
-- were made, and its directories are a forest below the root.
pub mod Extend
pub mod Steps
pub mod Reach
use os_test.Prelude.{
  ℕ, zero, suc, ◌<◌, ◌≡◌, refl, Bool, true, false, arith, Option, some, none, List, [], ◌∷◌, length,
  if◌then◌else◌, Option-cases, inl, inr, Bool-cases,
}
use os_test.Fs.Str.{has_slash, str_eq}
use os_test.Fs.FilePath.{FilePath, split_from_top}
use os_test.Fs.Ramfs.{
  Ramfs, DirId, RamfsDirEntry, dir, file, dir_at, file_at, find_dir, find_dir_in, new,
}

-- An entry of the directory `d`: it refers to an object that was made, whose parent is `d` and
-- whose name is one component of a path. A directory was made after the one that it is in.
abbrev pub IsEntryOf : Ramfs → DirId → RamfsDirEntry → Type 0
IsEntryOf fs d (dir i) =
    (d < i)
    × (i < length fs.dirs)
    × ((dir_at fs i).parent_dir ≡ d)
    × (has_slash (dir_at fs i).name ≡ false)
IsEntryOf fs d (file j) =
    (j < length fs.files)
    × ((file_at fs j).parent_dir ≡ d)
    × (has_slash (file_at fs j).name ≡ false)

abbrev pub AreEntriesOf : Ramfs → DirId → List RamfsDirEntry → Type 0
AreEntriesOf fs d [] = Unit
AreEntriesOf fs d (e ∷ entries) = IsEntryOf fs d e × AreEntriesOf fs d entries

pub record IsWellFormed (fs : Ramfs) : Type 0 where
  pub has_root_dir : 0 < length fs.dirs
  pub entries : (d : DirId) → d < length fs.dirs → AreEntriesOf fs d (dir_at fs d).entries

pub new-IsWellFormed : IsWellFormed new
new-IsWellFormed = record { has_root_dir = omega arith; entries = λ d h. only d h }
  where
    only : (d : DirId) → d < 1 → AreEntriesOf new d (dir_at new d).entries
    only zero h = tt
    only (suc d) h = absurd (omega arith)

-- A search from a directory that was made finds one that was made.
find_dir_in-made :
    (recurse : DirId → FilePath → Option DirId) (fs : Ramfs) (d r : DirId) (path : FilePath)
    (entries : List RamfsDirEntry)
    → ((e : DirId) (rest : FilePath)
        → e < length fs.dirs
        → recurse e rest ≡ some r
        → r < length fs.dirs)
    → AreEntriesOf fs d entries
    → find_dir_in recurse fs path entries ≡ some r
    → r < length fs.dirs
unfolding find_dir_in
find_dir_in-made recurse fs d r path [] below ok h = absurd (ground (arith, h))
find_dir_in-made recurse fs d r path (file f ∷ entries) below ok h =
    find_dir_in-made recurse fs d r path entries below ok.1 h
find_dir_in-made recurse fs d r path (dir i ∷ entries) below ok h =
    elim (Option-cases (split_from_top path)) [
      | inl last ↦ ground (arith, ok.0, find_dir_in-made recurse fs d r path entries below ok.1)
      | inr (cut, more) ↦
          ground
            (arith, below i cut.1 ok.0.1, find_dir_in-made recurse fs d r path entries below ok.1)
    ]

pub find_dir-made :
    (fuel : ℕ) (fs : Ramfs) (d r : DirId) (path : FilePath)
    → IsWellFormed fs
    → d < length fs.dirs
    → find_dir fuel fs d path ≡ some r
    → r < length fs.dirs
unfolding find_dir
find_dir-made zero fs d r path wf there h = absurd (ground (arith, h))
find_dir-made (suc fuel) fs d r path wf there h =
    find_dir_in-made (λ e rest. find_dir fuel fs e rest) fs d r path (dir_at fs d).entries
      (λ e rest made found. find_dir-made fuel fs e r rest wf made found) (wf.entries d there) h
