-- ===== src/Fs/FilePath/Relative.antt =====
-- `relative_to` of src/fs/path.rs takes a leading string off a path.
use mathlib.Core.Option.{some-injective}
use os_test.Prelude.{
  ◌≡◌, refl, inl, inr, none, some, [], ◌∷◌, ◌++◌, arith, ◌==◌, if◌then◌else◌, Option-cases, sym,
  ◌∙◌,
}
use os_test.Fs.Str.{Str, slash, strip_prefix, strip_prefix-some, strip_prefix-append}
use os_test.Fs.FilePath.{FilePath, root, relative_to}

-- The rest of a path, with one leading slash taken off.
abbrev pub unslash : Str → Str
unslash [] = []
unslash (c ∷ s) = if c == slash then s else c ∷ s

strip_root :
    (e : Str)
    → (elim (strip_prefix e root) [ none ↦ some e | some rest ↦ some rest ]) ≡ some (unslash e)
unfolding strip_prefix
strip_root [] = refl
strip_root (c ∷ s) = ground arith

relative_to_rest :
    (path relative rest : FilePath)
    → strip_prefix path relative ≡ some rest
    → relative_to path relative ≡ some (unslash rest)
unfolding relative_to
relative_to_rest path relative rest e = rw (e, relative_to) (strip_root rest)

-- A path that begins with the string `relative` is taken to what follows it, less one leading
-- slash, whether or not a component of the path ends there.
pub relative_to-append :
    (relative rest : FilePath) → relative_to (relative ++ rest) relative ≡ some (unslash rest)
relative_to-append relative rest =
    relative_to_rest (relative ++ rest) relative rest (strip_prefix-append relative rest)

-- Where `relative_to` has a result, the path begins with the string `relative`, and the result is
-- what follows it, less one leading slash.
pub relative_to-some :
    (path relative r : FilePath)
    → relative_to path relative ≡ some r
    → (rest : FilePath) × (path ≡ relative ++ rest) × (r ≡ unslash rest)
unfolding relative_to
relative_to-some path relative r h = elim (Option-cases (strip_prefix path relative)) [
  | inl other ↦ absurd (ground arith)
  | inr (rest, e) ↦ (
    rest,
    strip_prefix-some path relative rest e,
    some-injective r (unslash rest) (sym h ∙ relative_to_rest path relative rest e),
  )
]
