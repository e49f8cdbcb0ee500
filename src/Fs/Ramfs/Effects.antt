-- ===== src/Fs/Ramfs/Effects.antt =====
-- What `create_file` and `delete` of src/fs/ramfs.rs leave of the store, in the stores that calls lead
-- to.
use os_test.Prelude.{
  ℕ, ◌<◌, ◌≡◌, ◌≢◌, refl, ap, arith, Option, some, none, List, [], ◌∷◌, ◌++◌, length, Bool-cases,
  Option-cases, inl, inr, set, length-set,
}
use os_test.Prelude.Outcome.{Outcome, done}
use os_test.Prelude.Result.{ok, err}
use os_test.Fs.Str.{Str, str_eq, str_eq_iff}
use os_test.Fs.VfsError.{VfsResult, directory_does_not_exist, path_does_not_exist}
use os_test.Fs.Ramfs.{
  Ramfs, Dir, DirId, RamfsDirEntry, RamfsFile, RamfsFileHandle, file, root_id, dir_at, file_at,
  without_entry, entry_name,
}
use os_test.Fs.Ramfs.Objects.{
  dir_at-set_self, dir_at-set_ne, get_elem?-append_last, get_elem?-append_left,
}
use os_test.Fs.Ramfs.Walk.{resolve}
use os_test.Fs.Ramfs.Ops.{create_file, delete, set_entries}
use os_test.Fs.Ramfs.Entries.{absolute, IsName, AreNames}
use os_test.Fs.Ramfs.Behaviour.{create_file_lem, delete_lem, with_file}
use os_test.Fs.Ramfs.Invariant.Reach.{Reach, Reach-IsWellFormed}
use os_test.Fs.Ramfs.Reached.{resolve-made}

-- The second list is the first one without the elements that have the property, in order.
pub data IsWithout {A : Type 0} (P : A → Type 0) : List A → List A → Type 0 where
  ends : IsWithout P [] []
  drops : (e : A) (old new : List A) → P e → IsWithout P old new → IsWithout P (e ∷ old) new
  keeps : (e : A) (old new : List A) → ¬ P e → IsWithout P old new → IsWithout P (e ∷ old) (e ∷ new)

module _ (fs : Ramfs) (d : DirId) (name : Str) (after : Ramfs) where
  -- Only the entries of the directory `d` may have changed.
  pub record KeepsOthers : Type 0 where
    pub count : length after.dirs ≡ length fs.dirs
    pub others : (e : DirId) → e ≢ d → dir_at after e ≡ dir_at fs e
    pub title : (dir_at after d).name ≡ (dir_at fs d).name
    pub parent : (dir_at after d).parent_dir ≡ (dir_at fs d).parent_dir

  -- A file was added that is empty, and that is the last entry of the directory.
  pub record Created : Type 0 where
    pub dirs : KeepsOthers
    pub listed : (dir_at after d).entries ≡ (dir_at fs d).entries ++ file (length fs.files) ∷ []
    pub made : file_at after (length fs.files) ≡ record { name = name; data_ = []; parent_dir = d }
    pub files : (i : ℕ) → i < length fs.files → file_at after i ≡ file_at fs i

  -- The directory has lost its entries of the name, and no other.
  pub record Deleted : Type 0 where
    pub dirs : KeepsOthers
    pub left :
        IsWithout (λ e. entry_name fs e ≡ name) (dir_at fs d).entries (dir_at after d).entries
    pub files : after.files ≡ fs.files

-- The outcome of `create_file`, and that of `delete`.
pub data CreateFile (fs : Ramfs) (dirs : List Str) (name : Str)
    : Outcome (Ramfs × VfsResult RamfsFileHandle) → Type 0 where
  nowhere :
      resolve fs root_id dirs ≡ none
      → CreateFile fs dirs name (done (fs, err directory_does_not_exist))
  created :
      (d : DirId) (after : Ramfs)
      → resolve fs root_id dirs ≡ some d
      → Created fs d name after
      → CreateFile fs dirs name (done (after, ok (record { inner = length fs.files; pos = 0 })))

pub data Delete (fs : Ramfs) (dirs : List Str) (name : Str)
    : Outcome (Ramfs × VfsResult (Unit {0})) → Type 0 where
  not_found :
      resolve fs root_id dirs ≡ none → Delete fs dirs name (done (fs, err path_does_not_exist))
  deleted :
      (d : DirId) (after : Ramfs)
      → resolve fs root_id dirs ≡ some d
      → Deleted fs d name after
      → Delete fs dirs name (done (after, ok tt))

set_entries-KeepsOthers :
    (fs grown : Ramfs) (d : DirId) (name : Str) (entries : List RamfsDirEntry)
    → d < length fs.dirs
    → KeepsOthers fs d name
        (record grown { dirs = set fs.dirs d (record (dir_at fs d) { entries = entries }) })
set_entries-KeepsOthers fs grown d name entries there = record {
  count = length-set fs.dirs d _;
  others = λ e ne. dir_at-set_ne fs d e (record (dir_at fs d) { entries = entries }) ne;
  title =
      ap (λ (x : Dir). x.name)
        (dir_at-set_self fs d (record (dir_at fs d) { entries = entries }) there);
  parent =
      ap (λ (x : Dir). x.parent_dir)
        (dir_at-set_self fs d (record (dir_at fs d) { entries = entries }) there);
}

with_file-Created :
    (fs : Ramfs) (d : DirId) (name : Str)
    → d < length fs.dirs
    → Created fs d name (with_file fs d name)
with_file-Created fs d name there =
    let made : RamfsFile = record { name = name; data_ = []; parent_dir = d } in
    let grown : Ramfs = record fs { files = fs.files ++ made ∷ [] } in
    let longer : List RamfsDirEntry = (dir_at fs d).entries ++ file (length fs.files) ∷ [] in
    record {
      dirs = set_entries-KeepsOthers fs grown d name longer there;
      listed =
          ap (λ (x : Dir). x.entries)
            (dir_at-set_self fs d (record (dir_at fs d) { entries = longer }) there);
      made = ap read (get_elem?-append_last fs.files made);
      files = λ i low. ap read (get_elem?-append_left fs.files (made ∷ []) i low);
    }
  where
    read : Option RamfsFile → RamfsFile
    read none = record { name = []; data_ = []; parent_dir = root_id }
    read (some found) = found

without_entry-IsWithout :
    (fs : Ramfs) (name : Str) (entries : List RamfsDirEntry)
    → IsWithout (λ e. entry_name fs e ≡ name) entries (without_entry fs name entries)
unfolding without_entry
without_entry-IsWithout fs name [] = ends
without_entry-IsWithout fs name (e ∷ entries) =
    let rest = without_entry-IsWithout fs name entries in
    elim (Bool-cases (str_eq (entry_name fs e) name)) [
      | inl same ↦ rw same (drops e entries _ ((str_eq_iff _ _).0 same) rest)
      | inr other ↦ rw other (
          keeps e entries _
            (λ same. ground (arith, other, (str_eq_iff (entry_name fs e) name).1 same)) rest)
    ]

without_entry-Deleted :
    (fs : Ramfs) (d : DirId) (name : Str)
    → d < length fs.dirs
    → Deleted fs d name (set_entries fs d (without_entry fs name (dir_at fs d).entries))
without_entry-Deleted fs d name there = record {
  dirs = set_entries-KeepsOthers fs fs d name (without_entry fs name (dir_at fs d).entries) there;
  left =
      rw
        (dir_at-set_self fs d
          (record (dir_at fs d) { entries = without_entry fs name (dir_at fs d).entries }) there)
        (without_entry-IsWithout fs name (dir_at fs d).entries);
  files = refl;
}

module _ {fs : Ramfs} (dirs : List Str) (name : Str) (reached : Reach fs) (h : AreNames dirs)
    (n : IsName name) where
  there : (d : DirId) → resolve fs root_id dirs ≡ some d → d < length fs.dirs
  there d found =
      let wf = Reach-IsWellFormed reached in
      (resolve-made fs root_id d dirs wf wf.has_root_dir found).1

  -- In a store that calls led to, `create_file` of an absolute path, whose names have no slash and
  -- are not empty: where the names before the last lead to a directory, there is a new and empty
  -- file with the last name, which the answer is a handle at the beginning of; it stands behind the
  -- entries that the directory had, whether or not one of them has the name already; the other
  -- directories and files are as before. Where the names lead to no directory, the answer is
  -- `directory_does_not_exist` and nothing changes.
  pub create_file-CreateFile : CreateFile fs dirs name (create_file fs (absolute dirs name))
  create_file-CreateFile =
      rw (create_file_lem fs dirs name h n) (elim (Option-cases (resolve fs root_id dirs)) [
        | inl missing ↦ rw missing (nowhere missing)
        | inr (d, found) ↦
            rw found
              (created d (with_file fs d name) found (with_file-Created fs d name (there d found)))
      ])

  -- In a store that calls led to, `delete` of an absolute path, whose names have no slash and are
  -- not empty: where the names before the last lead to a directory, every entry with the last name
  -- is taken out of it, the others stay in order, the other directories and the files are as
  -- before, and the answer is a success also where there was no such entry. Where the names lead to
  -- no directory, the answer is `path_does_not_exist` and nothing changes.
  pub delete-Delete : Delete fs dirs name (delete fs (absolute dirs name))
  delete-Delete = rw (delete_lem fs dirs name h n) (elim (Option-cases (resolve fs root_id dirs)) [
    | inl missing ↦ rw missing (not_found missing)
    | inr (d, found) ↦
        rw found (deleted d _ found (without_entry-Deleted fs d name (there d found)))
  ])
