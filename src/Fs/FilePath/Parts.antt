-- ===== src/Fs/FilePath/Parts.antt =====
-- `parent` and `filename` of src/fs/path.rs take a path apart.
use os_test.Prelude.{
  ◌≡◌, refl, inl, inr, false, none, some, [], ◌∷◌, ◌++◌, arith, Bool-cases, length, length-append,
  ap,
}
use os_test.Prelude.Outcome.{done}
use os_test.Fs.Str.{
  Str, slash, str_eq, str_eq_iff, rsplit_once, rsplit_once-append, rsplit_once-none, has_slash,
  is_empty, cut_at_last_slash,
}
use os_test.Fs.FilePath.{FilePath, root, parent, has_other_parent, filename}

-- What a path consists of: `path` is the entry `name` of the directory `dir`, and `parent` and
-- `filename` give both.
pub record IsChild (path dir : FilePath) (name : Str) : Type 0 where
  pub has_parent : parent path ≡ some dir
  pub has_name : filename path ≡ done (some name)
  pub no_slash : has_slash name ≡ false

length_ne : (dir name : Str) → ¬ (dir ≡ dir ++ slash ∷ name)
length_ne dir name h = omega (arith, ap length h, length-append dir (slash ∷ name))

ne_longer : (dir name : Str) → str_eq dir (dir ++ slash ∷ name) ≡ false
ne_longer dir name = elim (Bool-cases (str_eq dir (dir ++ slash ∷ name))) [
  | inl same ↦ absurd (length_ne dir name ((str_eq_iff _ _).0 same))
  | inr differ ↦ differ
]

-- Below a directory that is not the root and not the empty string.
pub IsChild-append :
    (dir : FilePath) (name : Str)
    → is_empty dir ≡ false
    → has_slash name ≡ false
    → IsChild (dir ++ slash ∷ name) dir name
unfolding parent filename has_other_parent
IsChild-append dir name nonempty plain = record {
  has_parent = up;
  has_name = rw (up, has_other_parent, cut) (ground (arith, ne_longer dir name));
  no_slash = plain;
}
  where
    cut : rsplit_once (dir ++ slash ∷ name) ≡ some (dir, name)
    cut = rsplit_once-append dir name plain

    up : parent (dir ++ slash ∷ name) ≡ some dir
    up = rw (cut, parent) (rw nonempty)

-- Below the root.
pub IsChild-root :
    (name : Str) → is_empty name ≡ false → has_slash name ≡ false → IsChild (slash ∷ name) root name
unfolding parent filename
IsChild-root [] nonempty plain = cc
IsChild-root (c ∷ name) nonempty plain = record {
  has_parent = up;
  has_name = rw (up, has_other_parent, cut);
  no_slash = plain;
}
  where
    cut : rsplit_once (slash ∷ c ∷ name) ≡ some ([], c ∷ name)
    cut = rsplit_once-append [] (c ∷ name) plain

    up : parent (slash ∷ c ∷ name) ≡ some root
    up = rw (cut, parent)

-- What `parent` and `filename` make of any path. `plain`: without a slash it has neither. `top`:
-- the root is its own parent and has no name. `below_root` and `below`: any other path is its
-- name behind its directory, and both functions give these.
pub data Parts (path : FilePath) : Type 0 where
  plain : has_slash path ≡ false → parent path ≡ none → filename path ≡ done none → Parts path
  top : path ≡ root → parent path ≡ some root → filename path ≡ done none → Parts path
  below_root : (name : Str) → path ≡ slash ∷ name → IsChild path root name → Parts path
  below :
      (dir : FilePath) (name : Str)
      → path ≡ dir ++ slash ∷ name
      → IsChild path dir name
      → Parts path

from_cut :
    (path before after : FilePath)
    → path ≡ before ++ slash ∷ after
    → has_slash after ≡ false
    → Parts path
unfolding parent filename
from_cut path [] [] e name = top e (rw e) (rw e)
from_cut path [] (c ∷ after) e name =
    below_root (c ∷ after) e (rw e (IsChild-root (c ∷ after) refl name))
from_cut path (c ∷ before) after e name =
    below (c ∷ before) after e (rw e (IsChild-append (c ∷ before) after refl name))

-- For every path one of four cases holds, and `filename` panics in none. Without a slash, a path
-- has neither a parent nor a name. The root is its own parent and has no name. Any other path is
-- a name without a slash behind the root or behind a directory and a slash; `parent` gives that
-- directory and `filename` that name.
pub path-Parts : (path : FilePath) → Parts path
unfolding parent filename
path-Parts path = elim (Bool-cases (has_slash path)) [
  | inl more ↦
      let (before, after, e, name) = cut_at_last_slash path more in
      from_cut path before after e name
  | inr none_at_all ↦
      let cut = rsplit_once-none path none_at_all in
      plain none_at_all (rw (cut, parent)) (rw (cut, filename, has_other_parent, parent))
]
