-- ===== src/Fs/Str.antt =====
-- What src/fs uses of `str`: a string is the list of its characters.
use os_test.Prelude.{
  ℕ, ◌≡◌, refl, ◌↔◌, Bool, true, false, ◌&&◌, Option, none, some, List, [], ◌∷◌, ◌++◌, arith, ◌==◌,
  if◌then◌else◌, ap, Bool-cases, inl, inr,
}

abbrev pub Str : Type 0
Str = List ℕ

abbrev pub slash : ℕ
slash = b'/'

unfoldable pub str_eq : Str → Str → Bool
str_eq [] [] = true
str_eq [] (d ∷ t) = false
str_eq (c ∷ s) [] = false
str_eq (c ∷ s) (d ∷ t) = c == d && str_eq s t

-- `split_once('/')`: at the first slash
unfoldable pub split_once : Str → Option (Str × Str)
split_once [] = none
split_once (c ∷ s) =
    if c == slash
    then some ([], s)
    else elim (split_once s) [ none ↦ none | some (before, after) ↦ some (c ∷ before, after) ]

-- `rsplit_once('/')`: at the last slash
unfoldable pub rsplit_once : Str → Option (Str × Str)
rsplit_once [] = none
rsplit_once (c ∷ s) = elim (rsplit_once s) [
  | some (before, after) ↦ some (c ∷ before, after)
  | none ↦ if c == slash then some ([], s) else none
]

unfoldable pub strip_prefix : Str → Str → Option Str
strip_prefix s [] = some s
strip_prefix [] (d ∷ prefix) = none
strip_prefix (c ∷ s) (d ∷ prefix) = if c == d then strip_prefix s prefix else none

unfoldable pub starts_with_slash : Str → Bool
starts_with_slash [] = false
starts_with_slash (c ∷ s) = c == slash

unfoldable pub is_empty : Str → Bool
is_empty [] = true
is_empty (c ∷ s) = false

unfoldable pub has_slash : Str → Bool
has_slash [] = false
has_slash (c ∷ s) = if c == slash then true else has_slash s

pub str_eq_iff : (s t : Str) → (str_eq s t ≡ true) ↔ (s ≡ t)
unfolding str_eq
str_eq_iff [] [] = (λ _. refl, λ _. refl)
str_eq_iff [] (d ∷ t) = (λ h. cc, λ h. cc)
str_eq_iff (c ∷ s) [] = (λ h. cc, λ h. cc)
str_eq_iff (c ∷ s) (d ∷ t) = ground (arith, str_eq_iff s t)

pub str_eq_refl : (s : Str) → str_eq s s ≡ true
str_eq_refl s = (str_eq_iff s s).1 refl

-- A split at the first slash leaves no slash before it.
pub split_once-some :
    (s before after : Str)
    → split_once s ≡ some (before, after)
    → (s ≡ before ++ slash ∷ after) × (has_slash before ≡ false)
unfolding split_once has_slash
split_once-some [] before after h = cc
split_once-some (c ∷ s) [] after h = ground arith
split_once-some (c ∷ s) (d ∷ before) after h = ground (arith, split_once-some s before after)

pub split_once-append :
    (before after : Str)
    → has_slash before ≡ false
    → split_once (before ++ slash ∷ after) ≡ some (before, after)
unfolding split_once has_slash
split_once-append [] after h = refl
split_once-append (c ∷ before) after h = ground (arith, split_once-append before after)

pub split_once-none : (s : Str) → has_slash s ≡ false → split_once s ≡ none
unfolding split_once has_slash
split_once-none [] h = refl
split_once-none (c ∷ s) h = ground (arith, split_once-none s)

pub rsplit_once-none : (s : Str) → has_slash s ≡ false → rsplit_once s ≡ none
unfolding rsplit_once has_slash
rsplit_once-none [] h = refl
rsplit_once-none (c ∷ s) h = ground (arith, rsplit_once-none s)

pub rsplit_once-append :
    (before after : Str)
    → has_slash after ≡ false
    → rsplit_once (before ++ slash ∷ after) ≡ some (before, after)
unfolding rsplit_once
rsplit_once-append [] after h = ground (arith, rsplit_once-none after)
rsplit_once-append (c ∷ before) after h = ground (arith, rsplit_once-append before after)

-- Every string with a slash is cut at its last one.
pub cut_at_last_slash :
    (s : Str)
    → has_slash s ≡ true
    → (before after : Str) × (s ≡ before ++ slash ∷ after) × (has_slash after ≡ false)
unfolding has_slash
cut_at_last_slash [] h = cc
cut_at_last_slash (c ∷ s) h = elim (Bool-cases (has_slash s)) [
  | inr last ↦ ([], s, ground arith, last)
  | inl more ↦
      let (before, after, e, name) = cut_at_last_slash s more in
      (c ∷ before, after, ap (λ t. c ∷ t) e, name)
]

pub strip_prefix-some :
    (s prefix rest : Str) → strip_prefix s prefix ≡ some rest → s ≡ prefix ++ rest
unfolding strip_prefix
strip_prefix-some s [] rest h = ground arith
strip_prefix-some [] (d ∷ prefix) rest h = cc
strip_prefix-some (c ∷ s) (d ∷ prefix) rest h = ground (arith, strip_prefix-some s prefix rest)

pub strip_prefix-append : (prefix rest : Str) → strip_prefix (prefix ++ rest) prefix ≡ some rest
unfolding strip_prefix
strip_prefix-append [] rest = refl
strip_prefix-append (d ∷ prefix) rest = ground (arith, strip_prefix-append prefix rest)
