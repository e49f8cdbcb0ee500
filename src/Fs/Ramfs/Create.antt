-- ===== src/Fs/Ramfs/Create.antt =====
-- `create_file` of src/fs/ramfs.rs, followed by `open_file` of the same path.
use os_test.Prelude.{
  ℕ, ◌≡◌, ◌==◌, ◌<◌, ==_iff, Bool-cases, refl, ap, ◌∙◌, Option, none, some, List, [], ◌∷◌, ◌++◌,
  arith, length, Option-cases, inl, inr,
}
use os_test.Prelude.Outcome.{done}
use os_test.Prelude.Result.{ok}
use os_test.Fs.Str.{Str, str_eq_refl}
use os_test.Fs.Ramfs.{
  Ramfs, Dir, DirId, RamfsFile, RamfsFileHandle, RamfsDirEntry, dir, file, new_handle, root_id,
  dir_at, file_at,
}
use os_test.Fs.Ramfs.Objects.{
  dir_at-set_self, dir_at-set_ne, get_elem?-append_last, get_elem?-append_left,
}
use os_test.Fs.Ramfs.Walk.{resolve, first_dir, first_file, file_in}
use os_test.Fs.Ramfs.Ops.{create_file, open_file}
use os_test.Fs.Ramfs.Entries.{absolute, IsName, AreNames, open_file_lem}
use os_test.Fs.Ramfs.Behaviour.{with_file, create_file_lem}

-- Every file among the entries is one that was made.
abbrev pub AreMade : Ramfs → List RamfsDirEntry → Type 0
AreMade fs [] = Unit
AreMade fs (file f ∷ entries) = (f < length fs.files) × AreMade fs entries
AreMade fs (dir d ∷ entries) = AreMade fs entries

first_dir-append_file :
    (fs : Ramfs) (name : Str) (entries : List RamfsDirEntry) (f : ℕ)
    → first_dir fs name (entries ++ file f ∷ []) ≡ first_dir fs name entries
unfolding first_dir
first_dir-append_file fs name [] f = refl
first_dir-append_file fs name (file g ∷ entries) f = first_dir-append_file fs name entries f
first_dir-append_file fs name (dir d ∷ entries) f =
    ground (arith, first_dir-append_file fs name entries f)

pub first_dir_names :
    (fs after : Ramfs)
    → ((e : DirId) → (dir_at after e).name ≡ (dir_at fs e).name)
    → (name : Str) (entries : List RamfsDirEntry)
    → first_dir after name entries ≡ first_dir fs name entries
unfolding first_dir
first_dir_names fs after same name [] = refl
first_dir_names fs after same name (file g ∷ entries) = first_dir_names fs after same name entries
first_dir_names fs after same name (dir d ∷ entries) =
    ground (arith, first_dir_names fs after same name entries, same d)

module _ (fs : Ramfs) (d : DirId) (name : Str) (there : d < length fs.dirs) where
  abbrev after : Ramfs
  after = with_file fs d name

  abbrev grown : Dir
  grown = record (dir_at fs d) { entries = (dir_at fs d).entries ++ file (length fs.files) ∷ [] }

  names : (e : DirId) → (dir_at after e).name ≡ (dir_at fs e).name
  names e = elim (Bool-cases (e == d)) [
    | inl same ↦
        rw ((==_iff e d).0 same)
          (ap (λ (found : Dir). found.name) (dir_at-set_self fs d grown there))
    | inr other ↦
        ap (λ (found : Dir). found.name) (dir_at-set_ne fs d e grown (λ same. ground arith))
  ]

  first_dir-with_file :
      (n : Str) (e : DirId)
      → first_dir after n (dir_at after e).entries ≡ first_dir fs n (dir_at fs e).entries
  first_dir-with_file n e = first_dir_names fs after names n (dir_at after e).entries ∙ at e
    where
      at :
          (e : DirId)
          → first_dir fs n (dir_at after e).entries ≡ first_dir fs n (dir_at fs e).entries
      at e = elim (Bool-cases (e == d)) [
        | inl same ↦ rw ((==_iff e d).0 same) (
            ap (λ (found : Dir). first_dir fs n found.entries) (dir_at-set_self fs d grown there)
            ∙ first_dir-append_file fs n (dir_at fs d).entries (length fs.files))
        | inr other ↦
            ap (λ (found : Dir). first_dir fs n found.entries)
              (dir_at-set_ne fs d e grown (λ same. ground arith))
      ]

  resolve-with_file : (e : DirId) (dirs : List Str) → resolve after e dirs ≡ resolve fs e dirs
  unfolding resolve
  resolve-with_file e [] = refl
  resolve-with_file e (n ∷ dirs) = elim (Option-cases (first_dir fs n (dir_at fs e).entries)) [
    | inl missing ↦ rw (first_dir-with_file n e, resolve) (rw (missing, resolve))
    | inr (m, found) ↦
        rw (first_dir-with_file n e, resolve) (rw (found, resolve) (resolve-with_file m dirs))
  ]

  made_at : file_at after (length fs.files) ≡ record { name = name; data_ = []; parent_dir = d }
  made_at =
      rw (
        get_elem?-append_last fs.files (record { name = name; data_ = []; parent_dir = d }),
        file_at,
      )

  first_file-with_file :
      (entries : List RamfsDirEntry)
      → AreMade fs entries
      → first_file fs name entries ≡ none
      → first_file after name (entries ++ file (length fs.files) ∷ []) ≡ some (length fs.files)
  unfolding first_file
  first_file-with_file [] made none_yet = rw (made_at, str_eq_refl name)
  first_file-with_file (dir e ∷ entries) made none_yet = first_file-with_file entries made none_yet
  first_file-with_file (file f ∷ entries) made none_yet =
      ground (arith, first_file-with_file entries made.1, old)
    where
      old : (file_at after f).name ≡ (file_at fs f).name
      old = rw (
        get_elem?-append_left fs.files (record { name = name; data_ = []; parent_dir = d } ∷ []) f
            made.0,
        file_at,
      )

  file_in-with_file :
      AreMade fs (dir_at fs d).entries
      → first_file fs name (dir_at fs d).entries ≡ none
      → file_in after d name ≡ some (new_handle (length fs.files))
  file_in-with_file made none_yet =
      ap
        (λ (o : Option ℕ). elim o as (λ _. Option RamfsFileHandle) [
          | none ↦ none
          | some f ↦ some (new_handle f)
        ])
        (ap (λ (found : Dir). first_file after name found.entries)
            (dir_at-set_self fs d grown there)
          ∙ first_file-with_file (dir_at fs d).entries made none_yet)

-- For an absolute path whose names have no slash and are not empty, and whose names before the
-- last lead to a directory, where the files of the directory were all made before and none of
-- them has the last name: `create_file` of the path succeeds, the file it gives is empty, and
-- `open_file` of the path then gives a handle on this file.
pub create_file-open_file :
    (fs : Ramfs) (dirs : List Str) (name : Str) (d : DirId)
    → AreNames dirs
    → IsName name
    → resolve fs root_id dirs ≡ some d
    → d < length fs.dirs
    → AreMade fs (dir_at fs d).entries
    → first_file fs name (dir_at fs d).entries ≡ none
    → (after : Ramfs) × (made : RamfsFileHandle) × (create_file fs (absolute dirs name)
        ≡ done (after, ok made))
      × (open_file after (absolute dirs name) ≡ ok made)
      × ((file_at after made.inner).data_ ≡ [])
create_file-open_file fs dirs name d h n found there made none_yet = (
  with_file fs d name,
  new_handle (length fs.files),
  create_file_lem fs dirs name h n ∙ rw found,
  open_file_lem (with_file fs d name) dirs name h n
      ∙ rw (
        resolve-with_file fs d name there root_id dirs,
        found,
        file_in-with_file fs d name there made none_yet,
      ),
  ap (λ (f : RamfsFile). f.data_) (made_at fs d name there),
)
