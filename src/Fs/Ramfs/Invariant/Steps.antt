-- ===== src/Fs/Ramfs/Invariant/Steps.antt =====
-- Every operation of src/fs/ramfs.rs keeps its store well formed.
use os_test.Prelude.{
  ℕ, ◌+◌, ◌<◌, ◌≡◌, ◌==◌, ==_iff, refl, ap, ◌∙◌, false, arith, some, List, [], ◌∷◌, ◌++◌, length,
  length-append, length-set, set, Bool-cases, inl, inr,
}
use os_test.Prelude.Outcome.{done}
use os_test.Fs.Str.{Str, has_slash}
use os_test.Fs.FilePath.{FilePath, filename}
use os_test.Fs.FilePath.Parts.{path-Parts, plain, top, below_root, below}
use os_test.Fs.Ramfs.{Ramfs, Dir, RamfsFile, DirId, RamfsDirEntry, dir, file, dir_at, file_at}
use os_test.Fs.Ramfs.Ops.{set_entries}
use os_test.Fs.Ramfs.Behaviour.{with_file, with_dir}
use os_test.Fs.Ramfs.Objects.{
  file_at-set_self, file_at-set_ne, get_elem?-append_left, get_elem?-append_last,
}
use os_test.Fs.Ramfs.Invariant.{AreEntriesOf, IsWellFormed}
use os_test.Fs.Ramfs.Invariant.Extend.{
  Extends, Extends-AreEntriesOf, AreEntriesOf-append, updated-IsWellFormed,
}

-- The name of a path has no slash.
pub filename_plain :
    (path name : FilePath) → filename path ≡ done (some name) → has_slash name ≡ false
filename_plain path name h = elim (path-Parts path) [
  | plain _ _ none_at_all ↦ absurd (ground (arith, none_at_all, h))
  | top _ _ none_at_all ↦ absurd (ground (arith, none_at_all, h))
  | below_root n _ c ↦ ground (arith, c.has_name, c.no_slash, h)
  | below d n _ c ↦ ground (arith, c.has_name, c.no_slash, h)
]

module _ (fs : Ramfs) (wf : IsWellFormed fs) (d : DirId) (there : d < length fs.dirs) where
  pub with_file-IsWellFormed :
      (name : Str) → has_slash name ≡ false → IsWellFormed (with_file fs d name)
  with_file-IsWellFormed name p =
      updated-IsWellFormed grown d _ there wf.has_root_dir
        (λ e made other.
          Extends-AreEntriesOf fs grown e (dir_at fs e).entries more (wf.entries e made))
        (AreEntriesOf-append grown d (dir_at fs d).entries (file (length fs.files))
          (Extends-AreEntriesOf fs grown d (dir_at fs d).entries more (wf.entries d there))
          (
            omega (arith, length-append fs.files (made ∷ [])),
            ap (λ (f : RamfsFile). f.parent_dir) last,
            ap (λ (f : RamfsFile). has_slash f.name) last ∙ p,
          ))
    where
      made : RamfsFile
      made = record { name = name; data_ = []; parent_dir = d }

      grown : Ramfs
      grown = record fs { files = fs.files ++ made ∷ [] }

      last : file_at grown (length fs.files) ≡ made
      last = rw (get_elem?-append_last fs.files made, file_at)

      old : (j : ℕ) → j < length fs.files → file_at grown j ≡ file_at fs j
      old j h = rw (get_elem?-append_left fs.files (made ∷ []) j h, file_at)

      more : Extends fs grown
      more = record {
        more_dirs = omega arith;
        more_files = omega (arith, length-append fs.files (made ∷ []));
        dir_parent = λ i h. refl;
        dir_name = λ i h. refl;
        file_parent = λ j h. ap (λ (f : RamfsFile). f.parent_dir) (old j h);
        file_name = λ j h. ap (λ (f : RamfsFile). f.name) (old j h);
      }

  pub with_dir-IsWellFormed :
      (name : Str) → has_slash name ≡ false → IsWellFormed (with_dir fs d name)
  with_dir-IsWellFormed name p =
      updated-IsWellFormed grown d _ (omega (arith, there, longer))
        (omega (arith, wf.has_root_dir, longer)) (λ e h other. entries e h)
        (AreEntriesOf-append grown d (dir_at grown d).entries (dir (length fs.dirs))
          (entries d (omega (arith, there, longer)))
          (
            there,
            omega (arith, longer),
            ap (λ (f : Dir). f.parent_dir) last,
            ap (λ (f : Dir). has_slash f.name) last ∙ p,
          ))
    where
      made : Dir
      made = record { name = name; entries = []; parent_dir = d }

      grown : Ramfs
      grown = record fs { dirs = fs.dirs ++ made ∷ [] }

      longer : length grown.dirs ≡ length fs.dirs + 1
      longer = length-append fs.dirs (made ∷ [])

      last : dir_at grown (length fs.dirs) ≡ made
      last = rw (get_elem?-append_last fs.dirs made, dir_at)

      old : (i : DirId) → i < length fs.dirs → dir_at grown i ≡ dir_at fs i
      old i h = rw (get_elem?-append_left fs.dirs (made ∷ []) i h, dir_at)

      more : Extends fs grown
      more = record {
        more_dirs = omega (arith, longer);
        more_files = omega arith;
        dir_parent = λ i h. ap (λ (f : Dir). f.parent_dir) (old i h);
        dir_name = λ i h. ap (λ (f : Dir). f.name) (old i h);
        file_parent = λ j h. refl;
        file_name = λ j h. refl;
      }

      entries : (e : DirId) → e < length grown.dirs → AreEntriesOf grown e (dir_at grown e).entries
      entries e h = elim (Bool-cases (e == length fs.dirs)) [
        | inl same ↦ rw ((==_iff e (length fs.dirs)).0 same) (rw last tt)
        | inr other ↦
            let before : e < length fs.dirs = ground (arith, h, longer) in
            rw (old e before)
              (Extends-AreEntriesOf fs grown e (dir_at fs e).entries more (wf.entries e before))
      ]

  pub set_entries-IsWellFormed :
      (entries : List RamfsDirEntry)
      → AreEntriesOf fs d entries
      → IsWellFormed (set_entries fs d entries)
  set_entries-IsWellFormed entries good =
      updated-IsWellFormed fs d entries there wf.has_root_dir (λ e made other. wf.entries e made)
        good

pub written-IsWellFormed :
    (fs : Ramfs) (f : ℕ) (data_ : List ℕ)
    → IsWellFormed fs
    → IsWellFormed (record fs { files = set fs.files f (record (file_at fs f) { data_ = data_ }) })
written-IsWellFormed fs f data_ wf = record {
  has_root_dir = wf.has_root_dir;
  entries = λ d h. Extends-AreEntriesOf fs after d (dir_at fs d).entries more (wf.entries d h);
}
  where
    written : RamfsFile
    written = record (file_at fs f) { data_ = data_ }

    after : Ramfs
    after = record fs { files = set fs.files f written }

    same :
        (j : ℕ)
        → j < length fs.files
        → ((file_at after j).parent_dir ≡ (file_at fs j).parent_dir)
          × ((file_at after j).name ≡ (file_at fs j).name)
    same j h = elim (Bool-cases (j == f)) [
      | inl e ↦ rw ((==_iff j f).0 e) (
          let q = file_at-set_self fs f written (ground (arith, h, e)) in
          (ap (λ (x : RamfsFile). x.parent_dir) q, ap (λ (x : RamfsFile). x.name) q))
      | inr other ↦
          let q = file_at-set_ne fs f j written (λ e. ground (arith, e)) in
          (ap (λ (x : RamfsFile). x.parent_dir) q, ap (λ (x : RamfsFile). x.name) q)
    ]

    more : Extends fs after
    more = record {
      more_dirs = omega arith;
      more_files = omega (arith, length-set fs.files f written);
      dir_parent = λ i h. refl;
      dir_name = λ i h. refl;
      file_parent = λ j h. (same j h).0;
      file_name = λ j h. (same j h).1;
    }
