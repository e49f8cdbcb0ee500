-- ===== src/Fs/Ramfs/Entries.antt =====
-- The operations of src/fs/ramfs.rs on an absolute path `/d₁/…/dₖ/name`.
use mathlib.Core.List.{append_assoc}
use os_test.Prelude.{
  ℕ, suc, ◌≤◌, ◌≡◌, refl, ap, ◌∙◌, false, Option, none, some, List, [], ◌∷◌, ◌++◌, arith, length,
  length-append,
}
use os_test.Prelude.Outcome.{Outcome, done}
use os_test.Prelude.Result.{ok, err}
use os_test.Fs.Str.{Str, slash, has_slash, is_empty, str_eq, split_once}
use os_test.Fs.FilePath.{FilePath, root, has_root, is_root, relative_to, split_from_top}
use os_test.Fs.FilePath.Parts.{IsChild, IsChild-append, IsChild-root}
use os_test.Fs.FilePath.Relative.{relative_to-append}
use os_test.Fs.VfsError.{VfsError, VfsResult, path_does_not_exist, directory_does_not_exist}
use os_test.Fs.Ramfs.{Ramfs, DirId, RamfsFileHandle, root_id}
use os_test.Fs.Ramfs.Walk.{
  resolve, prefix, path_of, ArePlain, find_dir-resolve, find_file-resolve, file_in,
}
use os_test.Fs.Ramfs.Ops.{dir_of_new, dir_of_existing, open_file}

-- The path of the entry `name` in the directory that the names lead to.
abbrev pub absolute : List Str → Str → FilePath
absolute dirs name = prefix dirs ++ slash ∷ name

-- A component of a path has no slash and is not empty.
abbrev pub IsName : Str → Type 0
IsName s = (has_slash s ≡ false) × (is_empty s ≡ false)

abbrev pub AreNames : List Str → Type 0
AreNames [] = Unit
AreNames (d ∷ dirs) = IsName d × AreNames dirs

plain_of_names : (dirs : List Str) → AreNames dirs → ArePlain dirs
plain_of_names [] h = tt
plain_of_names (d ∷ dirs) h = (h.0.0, plain_of_names dirs h.1)

-- The path of the directory itself.
abbrev pub dir_path : List Str → FilePath
dir_path [] = root
dir_path (d ∷ dirs) = prefix (d ∷ dirs)

pub absolute-IsChild :
    (dirs : List Str) (name : Str) → IsName name → IsChild (absolute dirs name) (dir_path dirs) name
unfolding is_empty
absolute-IsChild [] name h = IsChild-root name h.1 h.0
absolute-IsChild (d ∷ dirs) name h = IsChild-append (prefix (d ∷ dirs)) name refl h.0

pub absolute-path_of :
    (dirs : List Str) (name : Str) → absolute dirs name ≡ slash ∷ path_of dirs name
absolute-path_of [] name = refl
absolute-path_of (d ∷ dirs) name =
    ap (λ (t : Str). slash ∷ t)
      (append_assoc d (prefix dirs) (slash ∷ name)
        ∙ ap (λ (t : Str). d ++ t) (absolute-path_of dirs name))

length-prefix : (dirs : List Str) → length dirs ≤ length (prefix dirs)
length-prefix [] = omega arith
length-prefix (d ∷ dirs) = omega (arith, length-append d (prefix dirs), length-prefix dirs)

length-path_of : (dirs : List Str) (name : Str) → length dirs ≤ length (path_of dirs name)
length-path_of [] name = omega arith
length-path_of (d ∷ dirs) name =
    omega (arith, length-append d (slash ∷ path_of dirs name), length-path_of dirs name)

split_at_root : (s : Str) → split_from_top (slash ∷ s) ≡ some ([], s)
unfolding split_from_top split_once
split_at_root s = refl

relative_to-root :
    (c : ℕ) (s : Str)
    → has_slash (c ∷ s) ≡ false
    → (t : Str) → relative_to (slash ∷ (c ∷ (s ++ t))) root ≡ some (c ∷ (s ++ t))
unfolding has_slash
relative_to-root c s h t = relative_to-append root (c ∷ (s ++ t)) ∙ ground arith

-- `Option::ok_or`
abbrev pub ok_or : VfsError → Option DirId → VfsResult DirId
ok_or e none = err e
ok_or e (some d) = ok d

in_done :
    (e : VfsError) (o : Option DirId)
    → (elim o as (λ _. Outcome (VfsResult DirId)) [ none ↦ done (err e) | some d ↦ done (ok d) ])
      ≡ done (ok_or e o)
in_done e none = refl
in_done e (some d) = refl

-- The directory of a new entry is the one that the names lead to.
pub dir_of_new-resolve :
    (fs : Ramfs) (dirs : List Str)
    → AreNames dirs
    → dir_of_new fs (dir_path dirs)
      ≡ done (ok_or directory_does_not_exist (resolve fs root_id dirs))
unfolding dir_of_new resolve is_empty is_root str_eq
dir_of_new-resolve fs [] h = refl
dir_of_new-resolve fs ([] ∷ dirs) h = absurd (ground (arith, h.0.1))
dir_of_new-resolve fs ((c ∷ m) ∷ dirs) h =
    rw (split_at_root ((c ∷ m) ++ prefix dirs), dir_of_new)
      (in_done directory_does_not_exist _
        ∙ ap (λ (o : Option DirId). done (ok_or directory_does_not_exist o))
            (find_dir-resolve fs (suc (length ((c ∷ m) ++ prefix dirs))) root_id (c ∷ m) dirs
              (omega (arith, length-prefix dirs, length-append (c ∷ m) (prefix dirs))) h.0.0
              (plain_of_names dirs h.1)))

pub dir_of_existing-resolve :
    (fs : Ramfs) (dirs : List Str)
    → AreNames dirs
    → dir_of_existing fs (dir_path dirs)
      ≡ done (ok_or path_does_not_exist (resolve fs root_id dirs))
unfolding dir_of_existing resolve is_empty is_root str_eq
dir_of_existing-resolve fs [] h = refl
dir_of_existing-resolve fs ([] ∷ dirs) h = absurd (ground (arith, h.0.1))
dir_of_existing-resolve fs ((c ∷ m) ∷ dirs) h =
    rw (relative_to-root c m h.0.0 (prefix dirs), dir_of_existing)
      (in_done path_does_not_exist _
        ∙ ap (λ (o : Option DirId). done (ok_or path_does_not_exist o))
            (find_dir-resolve fs (suc (length ((c ∷ m) ++ prefix dirs))) root_id (c ∷ m) dirs
              (omega (arith, length-prefix dirs, length-append (c ∷ m) (prefix dirs))) h.0.0
              (plain_of_names dirs h.1)))

-- `open_file` of an absolute path, whose names have no slash and are not empty: it gives a new
-- handle on the first file of the last name in the directory that the other names lead to, and
-- `path_does_not_exist` where there is no such file or directory.
pub open_file_lem :
    (fs : Ramfs) (dirs : List Str) (name : Str)
    → AreNames dirs
    → IsName name
    → open_file fs (absolute dirs name)
      ≡ (elim (elim (resolve fs root_id dirs) as (λ _. Option RamfsFileHandle) [
        | none ↦ none
        | some d ↦ file_in fs d name
      ]) [ none ↦ err path_does_not_exist | some h ↦ ok h ])
unfolding open_file has_root resolve
open_file_lem fs dirs name h n =
    rw (absolute-path_of dirs name, open_file)
      (rw (split_at_root (path_of dirs name)) (
        rw (
          find_file-resolve fs (suc (length (path_of dirs name))) root_id dirs name
            (omega (arith, length-path_of dirs name)) (plain_of_names dirs h) n.0)))
