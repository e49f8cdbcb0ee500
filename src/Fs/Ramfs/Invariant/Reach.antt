-- ===== src/Fs/Ramfs/Invariant/Reach.antt =====
-- The stores that calls of src/fs/ramfs.rs lead to from an empty file system.
use os_test.Prelude.{
  ℕ, suc, ◌<◌, ◌≡◌, arith, List, [], length, set, Bool-cases, Option-cases, inl, inr,
}
use os_test.Prelude.Outcome.{done, Outcome-cases}
use os_test.Prelude.Result.{ok, Result-cases}
use os_test.Fs.FilePath.{
  FilePath, parent, filename, has_root, is_root, relative_to, split_from_top, root,
}
use os_test.Fs.VfsError.{VfsResult}
use os_test.Fs.Ramfs.{
  Ramfs, DirId, RamfsFileHandle, root_id, find_dir_from_root, new, without_entry, dir_at, file_at,
}
use os_test.Fs.Ramfs.Ops.{
  create_file, create_dir, delete, write, write_from, dir_of_new, dir_of_existing, set_entries,
}
use os_test.Fs.Ramfs.Behaviour.{with_file, with_dir}
use os_test.Fs.Ramfs.Invariant.{IsWellFormed, find_dir-made, new-IsWellFormed}
use os_test.Fs.Ramfs.Invariant.Extend.{AreEntriesOf-without_entry}
use os_test.Fs.Ramfs.Invariant.Steps.{
  filename_plain, with_file-IsWellFormed, with_dir-IsWellFormed, set_entries-IsWellFormed,
  written-IsWellFormed,
}

dir_of_new-made :
    (fs : Ramfs) (up : FilePath) (d : DirId)
    → IsWellFormed fs
    → dir_of_new fs up ≡ done (ok d)
    → d < length fs.dirs
unfolding dir_of_new
dir_of_new-made fs up d wf h = elim (Bool-cases (is_root up)) [
  | inl at_root ↦ ground (arith, wf.has_root_dir)
  | inr deeper ↦ elim (Option-cases (split_from_top up)) [
    | inl none_at_all ↦ absurd (ground arith)
    | inr (cut, split) ↦ elim (Option-cases (find_dir_from_root fs cut.1)) [
      | inl missing ↦ absurd (ground arith)
      | inr (e, found) ↦
          let same : e ≡ d = ground arith in
          rw (← same)
            (find_dir-made (suc (length cut.1)) fs root_id e cut.1 wf wf.has_root_dir found)
    ]
  ]
]

dir_of_existing-made :
    (fs : Ramfs) (up : FilePath) (d : DirId)
    → IsWellFormed fs
    → dir_of_existing fs up ≡ done (ok d)
    → d < length fs.dirs
unfolding dir_of_existing
dir_of_existing-made fs up d wf h = elim (Bool-cases (is_root up)) [
  | inl at_root ↦ ground (arith, wf.has_root_dir)
  | inr deeper ↦ elim (Option-cases (relative_to up root)) [
    | inl none_at_all ↦ absurd (ground arith)
    | inr (rest, split) ↦ elim (Option-cases (find_dir_from_root fs rest)) [
      | inl missing ↦ absurd (ground arith)
      | inr (e, found) ↦
          let same : e ≡ d = ground arith in
          rw (← same) (find_dir-made (suc (length rest)) fs root_id e rest wf wf.has_root_dir found)
    ]
  ]
]

create_file-IsWellFormed :
    (fs after : Ramfs) (path : FilePath) (r : VfsResult RamfsFileHandle)
    → IsWellFormed fs
    → create_file fs path ≡ done (after, r)
    → IsWellFormed after
unfolding create_file
create_file-IsWellFormed fs after path r wf h = elim (Bool-cases (has_root path)) [
  | inr relative ↦ let same : fs ≡ after = ground arith in rw (← same) wf
  | inl rooted ↦ elim (Option-cases (parent path)) [
    | inl none_at_all ↦ let same : fs ≡ after = ground arith in rw (← same) wf
    | inr (up, e) ↦ elim (Outcome-cases (dir_of_new fs up)) [
      | inr panics ↦ absurd (ground arith)
      | inl (found, q) ↦ elim (Result-cases found) [
        | inr (error, q') ↦ let same : fs ≡ after = ground arith in rw (← same) wf
        | inl (d, q') ↦ elim (Outcome-cases (filename path)) [
          | inr panics ↦ absurd (ground arith)
          | inl (called, c) ↦ elim (Option-cases called) [
            | inl none_at_all ↦ absurd (ground arith)
            | inr (name, c') ↦
                let same : with_file fs d name ≡ after = ground arith in
                rw (← same) (
                  with_file-IsWellFormed fs wf d (dir_of_new-made fs up d wf (rw (← q') q)) name
                    (filename_plain path name (rw (← c') c)))
          ]
        ]
      ]
    ]
  ]
]

create_dir-IsWellFormed :
    (fs after : Ramfs) (path : FilePath) (r : VfsResult (Unit {0}))
    → IsWellFormed fs
    → create_dir fs path ≡ done (after, r)
    → IsWellFormed after
unfolding create_dir
create_dir-IsWellFormed fs after path r wf h = elim (Bool-cases (has_root path)) [
  | inr relative ↦ let same : fs ≡ after = ground arith in rw (← same) wf
  | inl rooted ↦ elim (Option-cases (parent path)) [
    | inl none_at_all ↦ let same : fs ≡ after = ground arith in rw (← same) wf
    | inr (up, e) ↦ elim (Outcome-cases (dir_of_new fs up)) [
      | inr panics ↦ absurd (ground arith)
      | inl (found, q) ↦ elim (Result-cases found) [
        | inr (error, q') ↦ let same : fs ≡ after = ground arith in rw (← same) wf
        | inl (d, q') ↦ elim (Outcome-cases (filename path)) [
          | inr panics ↦ absurd (ground arith)
          | inl (called, c) ↦ elim (Option-cases called) [
            | inl none_at_all ↦ absurd (ground arith)
            | inr (name, c') ↦
                let same : with_dir fs d name ≡ after = ground arith in
                rw (← same) (
                  with_dir-IsWellFormed fs wf d (dir_of_new-made fs up d wf (rw (← q') q)) name
                    (filename_plain path name (rw (← c') c)))
          ]
        ]
      ]
    ]
  ]
]

delete-IsWellFormed :
    (fs after : Ramfs) (path : FilePath) (r : VfsResult (Unit {0}))
    → IsWellFormed fs
    → delete fs path ≡ done (after, r)
    → IsWellFormed after
unfolding delete
delete-IsWellFormed fs after path r wf h = elim (Bool-cases (has_root path)) [
  | inr relative ↦ let same : fs ≡ after = ground arith in rw (← same) wf
  | inl rooted ↦ elim (Bool-cases (is_root path)) [
    | inl at_root ↦
        let same : set_entries fs root_id [] ≡ after = ground arith in
        rw (← same) (set_entries-IsWellFormed fs wf root_id wf.has_root_dir [] tt)
    | inr deeper ↦ elim (Option-cases (parent path)) [
      | inl none_at_all ↦ absurd (ground arith)
      | inr (up, e) ↦ elim (Outcome-cases (dir_of_existing fs up)) [
        | inr panics ↦ absurd (ground arith)
        | inl (found, q) ↦ elim (Result-cases found) [
          | inr (error, q') ↦ let same : fs ≡ after = ground arith in rw (← same) wf
          | inl (d, q') ↦ elim (Outcome-cases (filename path)) [
            | inr panics ↦ absurd (ground arith)
            | inl (called, c) ↦ elim (Option-cases called) [
              | inl none_at_all ↦ absurd (ground arith)
              | inr (name, c') ↦
                  let there = dir_of_existing-made fs up d wf (rw (← q') q) in
                  let rest = without_entry fs name (dir_at fs d).entries in
                  let same : set_entries fs d rest ≡ after = ground arith in
                  rw (← same) (
                    set_entries-IsWellFormed fs wf d there rest (
                      AreEntriesOf-without_entry fs fs d name (dir_at fs d).entries
                        (wf.entries d there)))
            ]
          ]
        ]
      ]
    ]
  ]
]

write-IsWellFormed :
    (fs after : Ramfs) (h h' : RamfsFileHandle) (buf : List ℕ) (r : VfsResult ℕ)
    → IsWellFormed fs
    → write fs h buf ≡ done (after, h', r)
    → IsWellFormed after
unfolding write
write-IsWellFormed fs after h h' buf r wf e =
    elim (Outcome-cases (write_from h.pos buf (file_at fs h.inner).data_ 0)) [
      | inr panics ↦ absurd (ground arith)
      | inl (out, q) ↦
          let same : record fs {
            files = set fs.files h.inner (record (file_at fs h.inner) { data_ = out.0 });
          }
              ≡ after =
            ground arith in
          rw (← same) (written-IsWellFormed fs h.inner out.0 wf)
    ]

-- One call that returns, with any path, handle and bytes, and with any answer.
pub data Step (fs after : Ramfs) : Type 0 where
  created_file :
      (path : FilePath) (r : VfsResult RamfsFileHandle)
      → create_file fs path ≡ done (after, r)
      → Step fs after
  created_dir :
      (path : FilePath) (r : VfsResult (Unit {0}))
      → create_dir fs path ≡ done (after, r)
      → Step fs after
  deleted :
      (path : FilePath) (r : VfsResult (Unit {0}))
      → delete fs path ≡ done (after, r)
      → Step fs after
  written :
      (h h' : RamfsFileHandle) (buf : List ℕ) (r : VfsResult ℕ)
      → write fs h buf ≡ done (after, h', r)
      → Step fs after

-- The stores that calls lead to, from an empty file system on.
pub data Reach : Ramfs → Type 0 where
  empty : Reach new
  call : {fs after : Ramfs} → Reach fs → Step fs after → Reach after

Step-IsWellFormed : (fs after : Ramfs) → Step fs after → IsWellFormed fs → IsWellFormed after
Step-IsWellFormed fs after (created_file path r h) wf =
    create_file-IsWellFormed fs after path r wf h
Step-IsWellFormed fs after (created_dir path r h) wf = create_dir-IsWellFormed fs after path r wf h
Step-IsWellFormed fs after (deleted path r h) wf = delete-IsWellFormed fs after path r wf h
Step-IsWellFormed fs after (written h h' buf r e) wf = write-IsWellFormed fs after h h' buf r wf e

-- After any calls of `create_file`, `create_dir`, `delete` and `write` on an empty file system, with
-- any paths and whatever they answered, the store is well formed: it has a root; every entry of
-- a directory that was made refers to an object that was made, whose parent is this directory and
-- whose name has no slash; and a directory was made after the one that it is in, so that no
-- directory is inside itself.
pub Reach-IsWellFormed : {fs : Ramfs} → Reach fs → IsWellFormed fs
Reach-IsWellFormed empty = new-IsWellFormed
Reach-IsWellFormed (call before step) = Step-IsWellFormed _ _ step (Reach-IsWellFormed before)
