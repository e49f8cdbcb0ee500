-- ===== src/Fs/Ramfs/Walk.antt =====
-- `find_dir` and `find_file` of src/fs/ramfs.rs against a walk along the names of a path.
use mathlib.Core.Path.{fun_ext}
use mathlib.Core.List.{append-nil}
use os_test.Prelude.{
  ℕ, zero, suc, ◌<◌, ◌≡◌, refl, ap, ◌∙◌, false, Option, none, some, List, [], ◌∷◌, ◌++◌, arith,
  if◌then◌else◌, length,
}
use os_test.Fs.Str.{Str, slash, str_eq, has_slash, split_once-append, split_once-none}
use os_test.Fs.FilePath.{FilePath, split_from_top}
use os_test.Fs.Ramfs.{
  Ramfs, DirId, FileId, RamfsDirEntry, RamfsFileHandle, dir, file, new_handle, dir_at, file_at,
  find_dir_in, find_dir, find_file_in, find_file,
}

-- The first directory, and the first file, of that name among the entries.
unfoldable pub first_dir : Ramfs → Str → List RamfsDirEntry → Option DirId
unfolding str_eq
first_dir fs name [] = none
first_dir fs name (file f ∷ entries) = first_dir fs name entries
first_dir fs name (dir d ∷ entries) =
    let others = first_dir fs name entries in
    if str_eq (dir_at fs d).name name then some d else others

unfoldable pub first_file : Ramfs → Str → List RamfsDirEntry → Option FileId
unfolding str_eq
first_file fs name [] = none
first_file fs name (dir d ∷ entries) = first_file fs name entries
first_file fs name (file f ∷ entries) =
    let others = first_file fs name entries in
    if str_eq (file_at fs f).name name then some f else others

-- Of two chained lookups the second may be done in the branch of the first.
into_branch :
    {A B C : Type 0} (o : Option A) (f : A → Option B) (g : B → Option C) (h : A → Option C)
    → ((a : A) → h a ≡ (elim (f a) [ none ↦ none | some b ↦ g b ]))
    → (elim o [ none ↦ none | some a ↦ h a ])
      ≡ (elim (elim o as (λ _. Option B) [ none ↦ none | some a ↦ f a ]) [
        | none ↦ none
        | some b ↦ g b
      ])
into_branch none f g h e = refl
into_branch (some a) f g h e = e a

-- The directory that the names lead to.
unfoldable pub resolve : Ramfs → DirId → List Str → Option DirId
unfolding first_dir
resolve fs d [] = some d
resolve fs d (name ∷ names) = elim (first_dir fs name (dir_at fs d).entries) [
  | none ↦ none
  | some e ↦ resolve fs e names
]

-- The path `d₁/…/dₖ/name`.
abbrev pub path_of : List Str → Str → FilePath
path_of [] name = name
path_of (d ∷ dirs) name = d ++ slash ∷ path_of dirs name

-- The path `/d₁/…/dₖ`, and the empty string where there is no name.
abbrev pub prefix : List Str → FilePath
prefix [] = []
prefix (d ∷ dirs) = slash ∷ d ++ prefix dirs

abbrev pub ArePlain : List Str → Type 0
ArePlain [] = Unit
ArePlain (d ∷ dirs) = (has_slash d ≡ false) × ArePlain dirs

module _ (fs : Ramfs) where
  -- The loops at a path with and without a slash.
  find_dir_in-some :
      (recurse : DirId → FilePath → Option DirId) (path top rest : FilePath)
      (entries : List RamfsDirEntry)
      → split_from_top path ≡ some (top, rest)
      → find_dir_in recurse fs path entries
        ≡ (elim (first_dir fs top entries) [ none ↦ none | some e ↦ recurse e rest ])
  unfolding find_dir_in first_dir
  find_dir_in-some recurse path top rest [] h = refl
  find_dir_in-some recurse path top rest (file f ∷ entries) h =
      find_dir_in-some recurse path top rest entries h
  find_dir_in-some recurse path top rest (dir d ∷ entries) h =
      ground (arith, find_dir_in-some recurse path top rest entries h)

  find_dir_in-none :
      (recurse : DirId → FilePath → Option DirId) (path : FilePath) (entries : List RamfsDirEntry)
      → split_from_top path ≡ none
      → find_dir_in recurse fs path entries ≡ first_dir fs path entries
  unfolding find_dir_in first_dir
  find_dir_in-none recurse path [] h = refl
  find_dir_in-none recurse path (file f ∷ entries) h = find_dir_in-none recurse path entries h
  find_dir_in-none recurse path (dir d ∷ entries) h =
      ground (arith, find_dir_in-none recurse path entries h)

  find_file_in-some :
      (recurse : DirId → FilePath → Option RamfsFileHandle) (path top rest : FilePath)
      (entries : List RamfsDirEntry)
      → split_from_top path ≡ some (top, rest)
      → find_file_in recurse fs path entries
        ≡ (elim (first_dir fs top entries) [ none ↦ none | some e ↦ recurse e rest ])
  unfolding find_file_in first_dir
  find_file_in-some recurse path top rest [] h = refl
  find_file_in-some recurse path top rest (file f ∷ entries) h =
      ground (arith, find_file_in-some recurse path top rest entries h)
  find_file_in-some recurse path top rest (dir d ∷ entries) h =
      ground (arith, find_file_in-some recurse path top rest entries h)

  find_file_in-none :
      (recurse : DirId → FilePath → Option RamfsFileHandle) (path : FilePath)
      (entries : List RamfsDirEntry)
      → split_from_top path ≡ none
      → find_file_in recurse fs path entries
        ≡ (elim (first_file fs path entries) [ none ↦ none | some f ↦ some (new_handle f) ])
  unfolding find_file_in first_file
  find_file_in-none recurse path [] h = refl
  find_file_in-none recurse path (dir d ∷ entries) h =
      ground (arith, find_file_in-none recurse path entries h)
  find_file_in-none recurse path (file f ∷ entries) h =
      ground (arith, find_file_in-none recurse path entries h)

  abbrev branch : (DirId → Option DirId) → Option DirId → Option DirId
  branch g none = none
  branch g (some e) = g e

  resolve_one : (o : Option DirId) → o ≡ (elim o [ none ↦ none | some e ↦ resolve fs e [] ])
  unfolding resolve
  resolve_one none = refl
  resolve_one (some e) = refl

  -- `find_dir` at the path `m/d₁/…/dₖ` follows the first directories with these names, with any
  -- fuel above `k`.
  pub find_dir-resolve :
      (fuel : ℕ) (d : DirId) (m : Str) (dirs : List Str)
      → length dirs < fuel
      → has_slash m ≡ false
      → ArePlain dirs
      → find_dir fuel fs d (m ++ prefix dirs) ≡ resolve fs d (m ∷ dirs)
  unfolding find_dir resolve split_from_top
  find_dir-resolve zero d m dirs h first plain = absurd (omega arith)
  find_dir-resolve (suc fuel) d m [] h first plain = rw (append-nil m) (
      find_dir_in-none (λ e rest. find_dir fuel fs e rest) m (dir_at fs d).entries
        (split_once-none m first)
      ∙ resolve_one (first_dir fs m (dir_at fs d).entries))
  find_dir-resolve (suc fuel) d m (n ∷ dirs) h first plain =
      find_dir_in-some (λ e rest. find_dir fuel fs e rest) (m ++ slash ∷ (n ++ prefix dirs)) m
        (n ++ prefix dirs) (dir_at fs d).entries (split_once-append m (n ++ prefix dirs) first)
      ∙ ap (λ (g : DirId → Option DirId). branch g (first_dir fs m (dir_at fs d).entries))
          (fun_ext (λ e. find_dir-resolve fuel e n dirs (omega arith) plain.0 plain.1))

  -- A new handle on the first file of the name in a directory.
  abbrev pub file_in : DirId → Str → Option RamfsFileHandle
  file_in e name = elim (first_file fs name (dir_at fs e).entries) [
    | none ↦ none
    | some f ↦ some (new_handle f)
  ]

  -- `find_file` at the path `d₁/…/dₖ/name`, whose names have no slash, follows the first directories
  -- with the names `d₁` to `dₖ` from its directory, and gives a new handle on the first file called
  -- `name` in the last of them, or none; any fuel above `k` is enough.
  pub find_file-resolve :
      (fuel : ℕ) (d : DirId) (dirs : List Str) (name : Str)
      → length dirs < fuel
      → ArePlain dirs
      → has_slash name ≡ false
      → find_file fuel fs d (path_of dirs name)
        ≡ (elim (resolve fs d dirs) [ none ↦ none | some e ↦ file_in e name ])
  unfolding find_file resolve split_from_top
  find_file-resolve zero d dirs name h plain last = absurd (omega arith)
  find_file-resolve (suc fuel) d [] name h plain last =
      find_file_in-none _ name (dir_at fs d).entries (split_once-none name last)
  find_file-resolve (suc fuel) d (m ∷ dirs) name h plain last =
      find_file_in-some (λ e rest. find_file fuel fs e rest) (m ++ slash ∷ path_of dirs name) m
        (path_of dirs name) (dir_at fs d).entries (split_once-append m (path_of dirs name) plain.0)
      ∙ into_branch (first_dir fs m (dir_at fs d).entries) (λ e. resolve fs e dirs)
          (λ e. file_in e name) (λ e. find_file fuel fs e (path_of dirs name))
          (λ e. find_file-resolve fuel e dirs name (omega arith) plain.1 last)
