-- ===== src/Fs/Ramfs/Objects.antt =====
-- The objects of src/fs/ramfs.rs behind their references, after one of them was written or a new
-- one was made.
use os_test.Prelude.{
  ℕ, zero, suc, ◌<◌, ◌≡◌, refl, sym, ◌≢◌, List, [], ◌∷◌, ◌++◌, some, arith, length, set, get_elem?,
  get_elem?-set_self, get_elem?-set_ne,
}
use os_test.Fs.Ramfs.{Ramfs, Dir, RamfsFile, dir_at, file_at}

module _ (fs : Ramfs) where
  pub file_at-set_self :
      (f : ℕ) (v : RamfsFile)
      → f < length fs.files
      → file_at (record fs { files = set fs.files f v }) f ≡ v
  file_at-set_self f v h = rw (get_elem?-set_self fs.files f v h, file_at)

  pub file_at-set_ne :
      (f g : ℕ) (v : RamfsFile)
      → g ≢ f
      → file_at (record fs { files = set fs.files f v }) g ≡ file_at fs g
  file_at-set_ne f g v ne =
      rw (get_elem?-set_ne fs.files {i = f} {j = g} v (λ e. ne (sym e)), file_at)

  pub dir_at-set_self :
      (d : ℕ) (v : Dir) → d < length fs.dirs → dir_at (record fs { dirs = set fs.dirs d v }) d ≡ v
  dir_at-set_self d v h = rw (get_elem?-set_self fs.dirs d v h, dir_at)

  pub dir_at-set_ne :
      (d e : ℕ) (v : Dir) → e ≢ d → dir_at (record fs { dirs = set fs.dirs d v }) e ≡ dir_at fs e
  dir_at-set_ne d e v ne = rw (get_elem?-set_ne fs.dirs {i = d} {j = e} v (λ q. ne (sym q)), dir_at)

pub get_elem?-append_last {ℓ} :
    {A : Type ℓ} (xs : List A) (x : A) → get_elem? (xs ++ x ∷ []) (length xs) ≡ some x
get_elem?-append_last [] x = refl
get_elem?-append_last (y ∷ xs) x = get_elem?-append_last xs x

pub get_elem?-append_left {ℓ} :
    {A : Type ℓ} (xs ys : List A) (i : ℕ) → i < length xs → get_elem? (xs ++ ys) i ≡ get_elem? xs i
get_elem?-append_left [] ys i h = absurd (omega arith)
get_elem?-append_left (x ∷ xs) ys zero h = refl
get_elem?-append_left (x ∷ xs) ys (suc i) h = get_elem?-append_left xs ys i (omega arith)
