-- ===== src/Fs/Ramfs/Reached.antt =====
-- Calls of src/fs/ramfs.rs one after the other, in the stores that calls lead to.
use os_test.Prelude.{
  ◌<◌, ◌≤◌, ◌≡◌, ◌≢◌, refl, sym, ap, ◌∙◌, false, arith, Option, some, none, List, [], ◌∷◌, length,
  Bool-cases, Option-cases, inl, inr,
}
use os_test.Prelude.Outcome.{Outcome, done}
use os_test.Prelude.Result.{ok, err}
use os_test.Fs.Str.{Str, str_eq, str_eq_iff}
use os_test.Fs.VfsError.{VfsResult, FileType, path_does_not_exist}
use os_test.Fs.Ramfs.{
  Ramfs, Dir, DirId, RamfsDirEntry, RamfsFileHandle, dir, file, root_id, dir_at, file_at,
  find_entry, without_entry, entry_name, entry_type,
}
use os_test.Fs.Ramfs.Objects.{dir_at-set_self, dir_at-set_ne}
use os_test.Fs.Ramfs.Walk.{resolve, first_dir, first_file}
use os_test.Fs.Ramfs.Ops.{create_file, open_file, delete, file_type, set_entries}
use os_test.Fs.Ramfs.Entries.{absolute, IsName, AreNames, open_file_lem}
use os_test.Fs.Ramfs.Behaviour.{delete_lem, file_type_lem, find_entry-without_entry, keeps_names}
use os_test.Fs.Ramfs.Create.{AreMade, create_file-open_file, first_dir_names}
use os_test.Fs.Ramfs.Invariant.{IsWellFormed, IsEntryOf, AreEntriesOf}
use os_test.Fs.Ramfs.Invariant.Reach.{Reach, Reach-IsWellFormed}

AreEntriesOf-AreMade :
    (fs : Ramfs) (d : DirId) (entries : List RamfsDirEntry)
    → AreEntriesOf fs d entries
    → AreMade fs entries
AreEntriesOf-AreMade fs d [] good = tt
AreEntriesOf-AreMade fs d (dir i ∷ entries) good = AreEntriesOf-AreMade fs d entries good.1
AreEntriesOf-AreMade fs d (file j ∷ entries) good =
    (good.0.0, AreEntriesOf-AreMade fs d entries good.1)

first_dir-IsEntryOf :
    (fs : Ramfs) (d i : DirId) (name : Str) (entries : List RamfsDirEntry)
    → AreEntriesOf fs d entries
    → first_dir fs name entries ≡ some i
    → IsEntryOf fs d (dir i)
unfolding first_dir
first_dir-IsEntryOf fs d i name [] good h = absurd (ground (arith, h))
first_dir-IsEntryOf fs d i name (file j ∷ entries) good h =
    first_dir-IsEntryOf fs d i name entries good.1 h
first_dir-IsEntryOf fs d i name (dir e ∷ entries) good h =
    elim (Bool-cases (str_eq (dir_at fs e).name name)) [
      | inl same ↦ let at : e ≡ i = ground arith in rw (← at) good.0
      | inr other ↦ first_dir-IsEntryOf fs d i name entries good.1 (ground arith)
    ]

-- A walk only goes to directories that were made later.
pub resolve-made :
    (fs : Ramfs) (d e : DirId) (dirs : List Str)
    → IsWellFormed fs
    → d < length fs.dirs
    → resolve fs d dirs ≡ some e
    → (d ≤ e) × (e < length fs.dirs)
unfolding resolve
resolve-made fs d e [] wf there h = let same : d ≡ e = ground arith in omega (arith, same, there)
resolve-made fs d e (n ∷ dirs) wf there h =
    elim (Option-cases (first_dir fs n (dir_at fs d).entries)) [
      | inl missing ↦ absurd (ground arith)
      | inr (m, found) ↦
          let entry =
            first_dir-IsEntryOf fs d m n (dir_at fs d).entries (wf.entries d there) found in
          omega (arith, entry.0, resolve-made fs m e dirs wf entry.1 (ground arith))
    ]

-- In a store that calls led to, for an absolute path whose names have no slash and are not empty,
-- and whose names before the last lead to a directory, where no file of the directory has the last
-- name: `create_file` of the path succeeds, the file it gives is empty, and `open_file` of the
-- path then gives a handle on this file.
pub create_file-open_file_reached :
    {fs : Ramfs} (dirs : List Str) (name : Str) (d : DirId)
    → Reach fs
    → AreNames dirs
    → IsName name
    → resolve fs root_id dirs ≡ some d
    → first_file fs name (dir_at fs d).entries ≡ none
    → (after : Ramfs) × (made : RamfsFileHandle) × (create_file fs (absolute dirs name)
        ≡ done (after, ok made))
      × (open_file after (absolute dirs name) ≡ ok made)
      × ((file_at after made.inner).data_ ≡ [])
create_file-open_file_reached {fs = fs} dirs name d reached h n found none_yet =
    let wf = Reach-IsWellFormed reached in
    let there = (resolve-made fs root_id d dirs wf wf.has_root_dir found).1 in
    create_file-open_file fs dirs name d h n found there
      (AreEntriesOf-AreMade fs d (dir_at fs d).entries (wf.entries d there)) none_yet

-- Entries of other names stay the first of their name.
find_entry-without_entry_ne :
    (fs : Ramfs) (name other : Str)
    → ¬ (other ≡ name)
    → (entries : List RamfsDirEntry)
    → find_entry fs other (without_entry fs name entries) ≡ find_entry fs other entries
unfolding find_entry without_entry
find_entry-without_entry_ne fs name other ne [] = refl
find_entry-without_entry_ne fs name other ne (e ∷ entries) =
    elim (Bool-cases (str_eq (entry_name fs e) name)) [
      | inl same ↦
          let different : str_eq (entry_name fs e) other ≡ false =
            elim (Bool-cases (str_eq (entry_name fs e) other)) [
              | inl both ↦ absurd (ne (sym ((str_eq_iff _ _).0 both) ∙ (str_eq_iff _ _).0 same))
              | inr differ ↦ differ
            ] in
          rw (same, different, find_entry, without_entry)
            (find_entry-without_entry_ne fs name other ne entries)
      | inr keep ↦ ground (arith, find_entry-without_entry_ne fs name other ne entries)
    ]

find_entry_names :
    (fs after : Ramfs) (name : Str)
    → ((e : RamfsDirEntry) → entry_name after e ≡ entry_name fs e)
    → (entries : List RamfsDirEntry) → find_entry after name entries ≡ find_entry fs name entries
unfolding find_entry
find_entry_names fs after name same [] = refl
find_entry_names fs after name same (e ∷ entries) =
    ground (arith, same e, find_entry_names fs after name same entries)

first_file-without_entry :
    (fs after : Ramfs) (name : Str)
    → ((e : RamfsDirEntry) → entry_name after e ≡ entry_name fs e)
    → (entries : List RamfsDirEntry) → first_file after name (without_entry fs name entries) ≡ none
unfolding first_file without_entry
first_file-without_entry fs after name same [] = refl
first_file-without_entry fs after name same (dir d ∷ entries) =
    ground (arith, first_file-without_entry fs after name same entries)
first_file-without_entry fs after name same (file f ∷ entries) =
    ground (arith, same (file f), first_file-without_entry fs after name same entries)

-- New entries of a directory change no walk that ends there.
module _ (fs : Ramfs) (d : DirId) (rest : List RamfsDirEntry) (wf : IsWellFormed fs)
    (there : d < length fs.dirs) where
  abbrev after : Ramfs
  after = set_entries fs d rest

  resolve-set_entries :
      (e : DirId) (dirs : List Str)
      → e < length fs.dirs
      → resolve fs e dirs ≡ some d
      → resolve after e dirs ≡ some d
  unfolding resolve
  resolve-set_entries e [] made h = h
  resolve-set_entries e (n ∷ dirs) made h =
      elim (Option-cases (first_dir fs n (dir_at fs e).entries)) [
        | inl missing ↦ absurd (ground arith)
        | inr (m, found) ↦
            let entry =
              first_dir-IsEntryOf fs e m n (dir_at fs e).entries (wf.entries e made) found in
            let onward : resolve fs m dirs ≡ some d = ground arith in
            let later = resolve-made fs m d dirs wf entry.1 onward in
            let elsewhere : e ≢ d = λ same. omega (arith, same, entry.0, later.0) in
            let same_dir =
              dir_at-set_ne fs d e (record (dir_at fs d) { entries = rest }) elsewhere in
            let step : first_dir after n (dir_at after e).entries ≡ some m =
              ap (λ (x : Dir). first_dir after n x.entries) same_dir
              ∙ first_dir_names fs after (λ i. keeps_names fs d rest there (dir i)) n
                  (dir_at fs e).entries
              ∙ found in
            rw (step, resolve) (resolve-set_entries m dirs entry.1 onward)
      ]

-- What `file_type` makes of the entry that it found.
abbrev answer : Option RamfsDirEntry → Outcome (VfsResult FileType)
answer none = done (err path_does_not_exist)
answer (some e) = done (ok (entry_type e))

-- In a store that calls led to, for an absolute path whose names have no slash and are not empty,
-- and whose names before the last lead to a directory: `delete` of the path succeeds; after it
-- `file_type` and `open_file` of the path give `path_does_not_exist`, and `file_type` of any other
-- entry of this directory gives what it gave before.
pub delete-file_type_reached :
    {fs : Ramfs} (dirs : List Str) (name : Str) (d : DirId)
    → Reach fs
    → AreNames dirs
    → IsName name
    → resolve fs root_id dirs ≡ some d
    → (after : Ramfs) × (delete fs (absolute dirs name) ≡ done (after, ok tt))
      × (file_type after (absolute dirs name) ≡ done (err path_does_not_exist))
      × (open_file after (absolute dirs name) ≡ err path_does_not_exist)
      × ((other : Str)
          → IsName other
          → ¬ (other ≡ name)
          → file_type after (absolute dirs other) ≡ file_type fs (absolute dirs other))
delete-file_type_reached {fs = fs} dirs name d reached h n found = (
  gone,
  delete_lem fs dirs name h n ∙ rw found,
  file_type_lem gone dirs name h n
      ∙ rw (
        way,
        there_now,
        find_entry-without_entry fs gone name (keeps_names fs d rest there) (dir_at fs d).entries,
      ),
  open_file_lem gone dirs name h n
      ∙ rw (
        way,
        there_now,
        first_file-without_entry fs gone name (keeps_names fs d rest there) (dir_at fs d).entries,
      ),
  λ other m ne.
      (file_type_lem gone dirs other h m
        ∙ same_entry other ne
        ∙ sym (file_type_lem fs dirs other h m ∙ rw found)),
)
  where
    wf : IsWellFormed fs
    wf = Reach-IsWellFormed reached

    there : d < length fs.dirs
    there = (resolve-made fs root_id d dirs wf wf.has_root_dir found).1

    rest : List RamfsDirEntry
    rest = without_entry fs name (dir_at fs d).entries

    gone : Ramfs
    gone = set_entries fs d rest

    way : resolve gone root_id dirs ≡ some d
    way = resolve-set_entries fs d rest wf there root_id dirs wf.has_root_dir found

    there_now : dir_at gone d ≡ record (dir_at fs d) { entries = rest }
    there_now = dir_at-set_self fs d (record (dir_at fs d) { entries = rest }) there

    same_entry :
        (other : Str)
        → ¬ (other ≡ name)
        → (elim (resolve gone root_id dirs) as (λ _. Outcome (VfsResult FileType)) [
          | none ↦ done (err path_does_not_exist)
          | some e ↦ answer (find_entry gone other (dir_at gone e).entries)
        ])
          ≡ answer (find_entry fs other (dir_at fs d).entries)
    same_entry other ne = rw (
      way,
      there_now,
      find_entry_names fs gone other (keeps_names fs d rest there) rest,
      find_entry-without_entry_ne fs name other ne (dir_at fs d).entries,
    )
