-- ===== src/Fs/Ramfs/Behaviour.antt =====
-- What `file_type`, `create_file`, `create_dir` and `delete` of src/fs/ramfs.rs do with the absolute
-- path of an entry.
use os_test.Prelude.{
  ◌≡◌, ◌==◌, ◌<◌, ==_iff, Bool-cases, refl, ap, ◌∙◌, true, false, none, some, List, [], ◌∷◌, ◌++◌,
  arith, length, Option-cases, inl, inr,
}
use os_test.Prelude.Outcome.{done}
use os_test.Prelude.Result.{ok, err}
use os_test.Fs.Str.{Str, slash, is_empty, str_eq}
use os_test.Fs.FilePath.{has_root, is_root}
use os_test.Fs.VfsError.{path_does_not_exist, directory_does_not_exist}
use os_test.Fs.Ramfs.{
  Ramfs, Dir, DirId, dir, file, new_handle, root_id, dir_at, entry_type, find_entry, without_entry,
  RamfsDirEntry, entry_name,
}
use os_test.Fs.Ramfs.Objects.{dir_at-set_self, dir_at-set_ne}
use os_test.Fs.Ramfs.Walk.{resolve}
use os_test.Fs.Ramfs.Ops.{create_file, create_dir, delete, file_type, push_entry, set_entries}
use os_test.Fs.Ramfs.Entries.{
  absolute, IsName, AreNames, absolute-IsChild, absolute-path_of, dir_of_new-resolve,
  dir_of_existing-resolve,
}

absolute-has_root : (dirs : List Str) (name : Str) → has_root (absolute dirs name) ≡ true
unfolding has_root
absolute-has_root dirs name = rw (absolute-path_of dirs name)

absolute-is_root :
    (dirs : List Str) (name : Str)
    → AreNames dirs
    → IsName name
    → is_root (absolute dirs name) ≡ false
unfolding is_root str_eq is_empty
absolute-is_root [] [] h n = absurd (ground (arith, n.1))
absolute-is_root [] (c ∷ name) h n = refl
absolute-is_root ([] ∷ dirs) name h n = absurd (ground (arith, h.0.1))
absolute-is_root ((c ∷ d) ∷ dirs) name h n = refl

-- What is stored for a new file, and for a new directory.
abbrev pub with_file : Ramfs → DirId → Str → Ramfs
with_file fs d name =
    push_entry
      (record fs { files = fs.files ++ record { name = name; data_ = []; parent_dir = d } ∷ [] }) d
      (file (length fs.files))

abbrev pub with_dir : Ramfs → DirId → Str → Ramfs
with_dir fs d name =
    push_entry
      (record fs { dirs = fs.dirs ++ record { name = name; entries = []; parent_dir = d } ∷ [] }) d
      (dir (length fs.dirs))

module _ (fs : Ramfs) (dirs : List Str) (name : Str) (h : AreNames dirs) (n : IsName name) where
  -- `create_file` of an absolute path, whose names have no slash and are not empty: where the
  -- names before the last lead to a directory, it returns a new handle on an empty file with the
  -- last name, which is put behind the entries of the directory whether or not one of them has
  -- the name already; where they lead to none, it gives `directory_does_not_exist` and changes
  -- nothing.
  pub create_file_lem : create_file fs (absolute dirs name) ≡ (elim (resolve fs root_id dirs) [
    | none ↦ done (fs, err directory_does_not_exist)
    | some d ↦ done (with_file fs d name, ok (new_handle (length fs.files)))
  ])
  unfolding create_file
  create_file_lem =
      let c = absolute-IsChild dirs name n in
      rw (absolute-has_root dirs name, c.has_parent, create_file)
        (rw (dir_of_new-resolve fs dirs h) (elim (Option-cases (resolve fs root_id dirs)) [
          | inl missing ↦ rw missing
          | inr (d, found) ↦ rw (found, c.has_name)
        ]))

  -- `create_dir` of an absolute path, whose names have no slash and are not empty: where the
  -- names before the last lead to a directory, an empty directory with the last name is put
  -- behind its entries, whether or not one of them has the name already; where they lead to
  -- none, it gives `directory_does_not_exist` and changes nothing.
  pub create_dir_lem : create_dir fs (absolute dirs name) ≡ (elim (resolve fs root_id dirs) [
    | none ↦ done (fs, err directory_does_not_exist)
    | some d ↦ done (with_dir fs d name, ok tt)
  ])
  unfolding create_dir
  create_dir_lem =
      let c = absolute-IsChild dirs name n in
      rw (absolute-has_root dirs name, c.has_parent, create_dir)
        (rw (dir_of_new-resolve fs dirs h) (elim (Option-cases (resolve fs root_id dirs)) [
          | inl missing ↦ rw missing
          | inr (d, found) ↦ rw (found, c.has_name)
        ]))

  not_root : is_root (absolute dirs name) ≡ false
  not_root = absolute-is_root dirs name h n

  -- `delete` of an absolute path, whose names have no slash and are not empty: where the names
  -- before the last lead to a directory, every entry with the last name is taken out of it, and
  -- the answer is a success also where there was none; where they lead to none, it gives
  -- `path_does_not_exist` and changes nothing.
  pub delete_lem : delete fs (absolute dirs name) ≡ (elim (resolve fs root_id dirs) [
    | none ↦ done (fs, err path_does_not_exist)
    | some d ↦ done (set_entries fs d (without_entry fs name (dir_at fs d).entries), ok tt)
  ])
  unfolding delete
  delete_lem =
      let c = absolute-IsChild dirs name n in
      rw (absolute-has_root dirs name, not_root, c.has_parent, delete)
        (rw (dir_of_existing-resolve fs dirs h) (elim (Option-cases (resolve fs root_id dirs)) [
          | inl missing ↦ rw missing
          | inr (d, found) ↦ rw (found, c.has_name)
        ]))

  -- `file_type` of an absolute path, whose names have no slash and are not empty: it gives the
  -- type of the first entry with the last name in the directory that the other names lead to,
  -- and `path_does_not_exist` where there is no such entry or directory.
  pub file_type_lem : file_type fs (absolute dirs name) ≡ (elim (resolve fs root_id dirs) [
    | none ↦ done (err path_does_not_exist)
    | some d ↦ elim (find_entry fs name (dir_at fs d).entries) [
      | none ↦ done (err path_does_not_exist)
      | some e ↦ done (ok (entry_type e))
    ]
  ])
  unfolding file_type
  file_type_lem =
      let c = absolute-IsChild dirs name n in
      rw (absolute-has_root dirs name, not_root, c.has_parent, file_type)
        (rw (dir_of_existing-resolve fs dirs h) (elim (Option-cases (resolve fs root_id dirs)) [
          | inl missing ↦ rw missing
          | inr (d, found) ↦ rw (found, c.has_name)
        ]))

-- After the names are taken out no entry of that name is left, whichever directory stands at each
-- number, so long as the objects keep their names.
pub find_entry-without_entry :
    (fs after : Ramfs) (name : Str)
    → ((e : RamfsDirEntry) → entry_name after e ≡ entry_name fs e)
    → (entries : List RamfsDirEntry) → find_entry after name (without_entry fs name entries) ≡ none
unfolding find_entry without_entry
find_entry-without_entry fs after name same [] = refl
find_entry-without_entry fs after name same (e ∷ entries) =
    ground (arith, find_entry-without_entry fs after name same entries, same e)

pub keeps_names :
    (fs : Ramfs) (d : DirId) (entries : List RamfsDirEntry)
    → d < length fs.dirs
    → (e : RamfsDirEntry) → entry_name (set_entries fs d entries) e ≡ entry_name fs e
keeps_names fs d entries there (file f) = refl
keeps_names fs d entries there (dir e) = elim (Bool-cases (e == d)) [
  | inl same ↦ rw ((==_iff e d).0 same) (
      ap (λ (found : Dir). found.name)
        (dir_at-set_self fs d (record (dir_at fs d) { entries = entries }) there))
  | inr other ↦
      ap (λ (found : Dir). found.name)
        (dir_at-set_ne fs d e (record (dir_at fs d) { entries = entries }) (λ same. ground arith))
]

-- In a file system that has its root directory, `delete` of the path of an entry of the root, whose
-- name has no slash and is not empty, succeeds, and `file_type` of the path then gives
-- `path_does_not_exist`, however many entries had the name.
pub delete-file_type :
    (fs : Ramfs) (name : Str)
    → IsName name
    → 0 < length fs.dirs
    → (after : Ramfs) × (delete fs (slash ∷ name) ≡ done (after, ok tt))
      × (file_type after (slash ∷ name) ≡ done (err path_does_not_exist))
unfolding resolve
delete-file_type fs name n there = (
  after,
  delete_lem fs [] name tt n,
  file_type_lem after [] name tt n
      ∙ rw (
        dir_at-set_self fs root_id (record (dir_at fs root_id) { entries = rest }) there,
        find_entry-without_entry fs after name (keeps_names fs root_id rest there)
            (dir_at fs root_id).entries,
      ),
)
  where
    rest : List RamfsDirEntry
    rest = without_entry fs name (dir_at fs root_id).entries

    after : Ramfs
    after = set_entries fs root_id rest
