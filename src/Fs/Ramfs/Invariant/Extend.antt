-- ===== src/Fs/Ramfs/Invariant/Extend.antt =====
-- A store that grew keeps what holds of its entries.
use os_test.Prelude.{
  ℕ, ◌<◌, ◌≤◌, ◌≡◌, ◌≢◌, ◌⊎◌, ◌==◌, ==_iff, refl, ap, ◌∙◌, arith, List, [], ◌∷◌, ◌++◌, length,
  length-set, set, Bool-cases, inl, inr,
}
use os_test.Fs.Str.{Str, has_slash, str_eq}
use os_test.Fs.Ramfs.{
  Ramfs, Dir, DirId, RamfsDirEntry, dir, file, dir_at, file_at, entry_name, without_entry,
}
use os_test.Fs.Ramfs.Objects.{dir_at-set_self, dir_at-set_ne}
use os_test.Fs.Ramfs.Invariant.{IsEntryOf, AreEntriesOf, IsWellFormed}

-- The objects of `fs` are still there, with the same names and parents.
pub record Extends (fs after : Ramfs) : Type 0 where
  pub more_dirs : length fs.dirs ≤ length after.dirs
  pub more_files : length fs.files ≤ length after.files
  pub dir_parent :
      (i : DirId) → i < length fs.dirs → (dir_at after i).parent_dir ≡ (dir_at fs i).parent_dir
  pub dir_name : (i : DirId) → i < length fs.dirs → (dir_at after i).name ≡ (dir_at fs i).name
  pub file_parent :
      (j : ℕ) → j < length fs.files → (file_at after j).parent_dir ≡ (file_at fs j).parent_dir
  pub file_name : (j : ℕ) → j < length fs.files → (file_at after j).name ≡ (file_at fs j).name

Extends-IsEntryOf :
    (fs after : Ramfs) (d : DirId) (e : RamfsDirEntry)
    → Extends fs after
    → IsEntryOf fs d e
    → IsEntryOf after d e
Extends-IsEntryOf fs after d (dir i) x (later, made, up, plain) = (
  later,
  omega (arith, x.more_dirs),
  x.dir_parent i made ∙ up,
  ap has_slash (x.dir_name i made) ∙ plain,
)
Extends-IsEntryOf fs after d (file j) x (made, up, plain) = (
  omega (arith, x.more_files),
  x.file_parent j made ∙ up,
  ap has_slash (x.file_name j made) ∙ plain,
)

pub Extends-AreEntriesOf :
    (fs after : Ramfs) (d : DirId) (entries : List RamfsDirEntry)
    → Extends fs after
    → AreEntriesOf fs d entries
    → AreEntriesOf after d entries
Extends-AreEntriesOf fs after d [] x ok = tt
Extends-AreEntriesOf fs after d (e ∷ entries) x ok =
    (Extends-IsEntryOf fs after d e x ok.0, Extends-AreEntriesOf fs after d entries x ok.1)

pub AreEntriesOf-append :
    (fs : Ramfs) (d : DirId) (entries : List RamfsDirEntry) (e : RamfsDirEntry)
    → AreEntriesOf fs d entries
    → IsEntryOf fs d e
    → AreEntriesOf fs d (entries ++ e ∷ [])
AreEntriesOf-append fs d [] e ok last = (last, tt)
AreEntriesOf-append fs d (x ∷ entries) e ok last =
    (ok.0, AreEntriesOf-append fs d entries e ok.1 last)

pub AreEntriesOf-without_entry :
    (fs names : Ramfs) (d : DirId) (name : Str) (entries : List RamfsDirEntry)
    → AreEntriesOf fs d entries
    → AreEntriesOf fs d (without_entry names name entries)
unfolding without_entry
AreEntriesOf-without_entry fs names d name [] ok = tt
AreEntriesOf-without_entry fs names d name (e ∷ entries) ok =
    elim (Bool-cases (str_eq (entry_name names e) name)) [
      | inl same ↦
          rw (same, without_entry) (AreEntriesOf-without_entry fs names d name entries ok.1)
      | inr other ↦
          rw (other, without_entry) (ok.0, AreEntriesOf-without_entry fs names d name entries ok.1)
    ]

-- A store in which one directory got other entries.
module _ (grown : Ramfs) (d : DirId) (entries : List RamfsDirEntry)
    (there : d < length grown.dirs) where
  abbrev pub changed : Dir
  changed = record (dir_at grown d) { entries = entries }

  abbrev pub updated : Ramfs
  updated = record grown { dirs = set grown.dirs d changed }

  at :
      (e : DirId)
      → ((e ≡ d) × (dir_at updated e ≡ changed)) ⊎ ((e ≢ d) × (dir_at updated e ≡ dir_at grown e))
  at e = elim (Bool-cases (e == d)) [
    | inl same ↦
        let same' = (==_iff e d).0 same in
        inl (same', rw same' (dir_at-set_self grown d changed there))
    | inr other ↦
        let other' : e ≢ d = λ same. ground (arith, same) in
        inr (other', dir_at-set_ne grown d e changed other')
  ]

  updated-Extends : Extends grown updated
  updated-Extends = record {
    more_dirs = rw (length-set grown.dirs d changed) (omega arith);
    more_files = omega arith;
    dir_parent = λ i made. parent i;
    dir_name = λ i made. name i;
    file_parent = λ j made. refl;
    file_name = λ j made. refl;
  }
    where
      parent : (i : DirId) → (dir_at updated i).parent_dir ≡ (dir_at grown i).parent_dir
      parent i = elim (at i) [ inl (same, e) ↦ rw (e, same) | inr (other, e) ↦ rw e ]

      name : (i : DirId) → (dir_at updated i).name ≡ (dir_at grown i).name
      name i = elim (at i) [ inl (same, e) ↦ rw (e, same) | inr (other, e) ↦ rw e ]

  pub updated-IsWellFormed :
      0 < length grown.dirs
      → ((e : DirId)
          → e < length grown.dirs
          → e ≢ d
          → AreEntriesOf grown e (dir_at grown e).entries)
      → AreEntriesOf grown d entries
      → IsWellFormed updated
  updated-IsWellFormed root_there others new = record {
    has_root_dir = rw (length-set grown.dirs d changed) root_there;
    entries = λ e made. elim (at e) [
      | inl (same, q) ↦ rw (q, same) (keeps d entries new)
      | inr (other, q) ↦ rw q (
          keeps e (dir_at grown e).entries
            (others e (omega (arith, made, length-set grown.dirs d changed)) other))
    ];
  }
    where
      keeps :
          (e : DirId) (es : List RamfsDirEntry)
          → AreEntriesOf grown e es
          → AreEntriesOf updated e es
      keeps e es ok = Extends-AreEntriesOf grown updated e es updated-Extends ok
