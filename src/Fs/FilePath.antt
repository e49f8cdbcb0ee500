-- ===== src/Fs/FilePath.antt =====
-- `Path` and `PathBuf` of src/fs/path.rs; both are their string here.
pub mod Parts
pub mod Relative
use os_test.Prelude.{
  ℕ, Bool, true, false, not, Option, none, some, List, [], ◌∷◌, ◌++◌, if◌then◌else◌,
}
use os_test.Prelude.Outcome.{Outcome, done, ◌>>=◌, unwrap}
use os_test.Fs.Str.{
  Str, slash, str_eq, split_once, rsplit_once, strip_prefix, starts_with_slash, is_empty,
}

abbrev pub FilePath : Type 0
FilePath = Str

abbrev pub root : FilePath
root = slash ∷ []

unfoldable pub parent : FilePath → Option FilePath
unfolding rsplit_once is_empty
parent path = elim (rsplit_once path) [
  | none ↦ none
  | some (before, _) ↦ if is_empty before then some root else some before
]

unfoldable pub has_root : FilePath → Bool
unfolding starts_with_slash
has_root path = starts_with_slash path

unfoldable pub is_root : FilePath → Bool
unfolding str_eq
is_root path = str_eq path root

unfoldable pub top_folder : FilePath → Option FilePath
unfolding has_root split_once
top_folder path =
    if has_root path
    then some root
    else elim (split_once path) [ none ↦ none | some (top, _) ↦ some top ]

-- `parent().is_some_and(|p| p != self)`
pub has_other_parent : FilePath → Bool
unfolding parent str_eq
has_other_parent path = elim (parent path) [ none ↦ false | some p ↦ not (str_eq p path) ]

-- Inside, `rsplit_once` is unwrapped.
unfoldable pub filename : FilePath → Outcome (Option FilePath)
unfolding has_other_parent rsplit_once
filename path =
    if has_other_parent path
    then (do (rest, name) ← unwrap (rsplit_once path); done (some name))
    else done none

unfoldable pub split_from_top : FilePath → Option (FilePath × FilePath)
unfolding split_once
split_from_top path = split_once path

unfoldable pub relative_to : FilePath → FilePath → Option FilePath
unfolding strip_prefix
relative_to path relative = elim (strip_prefix path relative) [
  | none ↦ none
  | some e ↦ elim (strip_prefix e root) [ none ↦ some e | some rest ↦ some rest ]
]

-- `PathBuf + &Path`: no separator is put in between.
unfoldable pub add : FilePath → FilePath → FilePath
add path rhs = path ++ rhs
