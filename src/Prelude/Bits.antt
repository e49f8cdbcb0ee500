-- ===== src/Prelude/Bits.antt =====
-- `&` and `|` on machine words as arithmetic. The native operations are given digit by digit with
-- a bound on the digits; here that bound is dropped, and a word is cut at any bit.
use Prim.Native.Nat.{
  ℕ, zero, suc, ◌+◌, ◌-◌, ◌*◌, ◌/◌, ◌%◌, ◌^◌, ◌≤◌, ◌<◌, min, max, bit_and, bit_or, digits, bitwise,
  bit_and-bitwise, bit_or-bitwise,
}
use mathlib.Core.Path.{◌≡◌, refl, sym, ap, ◌∙◌}
use native.Mathlib.Nat.{
  pow-suc, div-div-eq-div-mul, div-add-mod', div-one, mod-one, mul_comm, one-le-pow, mul-div_cancel,
  mul-mod_left, div-eq_of_lt, mod-eq_of_lt, one-mul,
}
use native.Mathlib.Omega.{arith}

module _ (rest : ℕ → ℕ) (bit : ℕ → ℕ → ℕ) where
  -- More digits than the word has change nothing.
  enough_digits : (a b n m : ℕ) → a ≤ n → a ≤ m → digits rest bit n a b ≡ digits rest bit m a b
  enough_digits zero b zero zero p q = refl
  enough_digits zero b zero (suc m) p q = refl
  enough_digits zero b (suc n) zero p q = refl
  enough_digits zero b (suc n) (suc m) p q = refl
  enough_digits (suc a) b zero m p q = absurd (omega arith)
  enough_digits (suc a) b (suc n) zero p q = absurd (omega arith)
  enough_digits (suc a) b (suc n) (suc m) p q =
      ap (λ t. t * 2 + bit (suc a % 2) (b % 2))
        (enough_digits (suc a / 2) (b / 2) n m (omega arith) (omega arith))

  -- One equation for the lowest digit.
  bitwise-suc :
      (a b : ℕ)
      → bitwise rest bit (suc a) b
        ≡ bitwise rest bit (suc a / 2) (b / 2) * 2 + bit (suc a % 2) (b % 2)
  bitwise-suc a b =
      ap (λ t. t * 2 + bit (suc a % 2) (b % 2))
        (enough_digits (suc a / 2) (b / 2) a (suc a / 2) (omega arith) (omega arith))

bit_and-low : (a b : ℕ) → bit_and a b ≡ bit_and (a / 2) (b / 2) * 2 + min (a % 2) (b % 2)
bit_and-low zero b = rw (bit_and-bitwise 0 b, bit_and-bitwise 0 (b / 2)) (omega arith)
bit_and-low (suc a) b =
    rw (bit_and-bitwise (suc a) b, bit_and-bitwise (suc a / 2) (b / 2))
      (bitwise-suc (λ b. 0) min a b)

bit_or-low : (a b : ℕ) → bit_or a b ≡ bit_or (a / 2) (b / 2) * 2 + max (a % 2) (b % 2)
bit_or-low zero b = rw (bit_or-bitwise 0 b, bit_or-bitwise 0 (b / 2)) (omega arith)
bit_or-low (suc a) b =
    rw (bit_or-bitwise (suc a) b, bit_or-bitwise (suc a / 2) (b / 2)) (bitwise-suc (λ b. b) max a b)

-- With `p` for the power of two: the digits above the lowest one of the low part of a word.
half-mod : (a p : ℕ) → 0 < p → a % (p * 2) / 2 ≡ a / 2 % p
half-mod a p h = grind (arith, div-add-mod' a (p * 2), div-add-mod' (a / 2) p)

low-mod : (a p : ℕ) → 0 < p → a % (p * 2) % 2 ≡ a % 2
low-mod a p h = omega (arith, div-add-mod' a (p * 2))

half-div : (a p : ℕ) → a / (p * 2) ≡ a / 2 / p
half-div a p = rw (div-div-eq-div-mul a 2 p, mul_comm 2 p)

-- An operation on words that works digit by digit, as `&` and `|` do.
module _ (op bit : ℕ → ℕ → ℕ) (none : op 0 0 ≡ 0)
    (low : (a b : ℕ) → op a b ≡ op (a / 2) (b / 2) * 2 + bit (a % 2) (b % 2)) where
  op-cut_step :
      (p a b : ℕ)
      → 0 < p
      → op (a / 2) (b / 2) ≡ op (a / 2 / p) (b / 2 / p) * p + op (a / 2 % p) (b / 2 % p)
      → op a b ≡ op (a / (p * 2)) (b / (p * 2)) * (p * 2) + op (a % (p * 2)) (b % (p * 2))
  op-cut_step p a b pos ih =
      rw
        (
          low (a % (p * 2)) (b % (p * 2)),
          half-mod a p pos,
          half-mod b p pos,
          low-mod a p pos,
          low-mod b p pos,
          half-div a p,
          half-div b p,
        )
        (omega (arith, low a b, ih))

  -- A word is cut at bit `k`, and the operation works on both parts.
  op-cut : (k a b : ℕ) → op a b ≡ op (a / 2 ^ k) (b / 2 ^ k) * 2 ^ k + op (a % 2 ^ k) (b % 2 ^ k)
  op-cut zero a b = simp (div-one, mod-one, none) (omega arith)
  op-cut (suc k) a b =
      rw (pow-suc 2 k)
        (op-cut_step (2 ^ k) a b (one-le-pow k 2 (omega arith)) (op-cut k (a / 2) (b / 2)))

pub bit_and-cut :
    (k a b : ℕ)
    → bit_and a b ≡ bit_and (a / 2 ^ k) (b / 2 ^ k) * 2 ^ k + bit_and (a % 2 ^ k) (b % 2 ^ k)
bit_and-cut = op-cut bit_and min refl bit_and-low

pub bit_or-cut :
    (k a b : ℕ)
    → bit_or a b ≡ bit_or (a / 2 ^ k) (b / 2 ^ k) * 2 ^ k + bit_or (a % 2 ^ k) (b % 2 ^ k)
bit_or-cut = op-cut bit_or max refl bit_or-low

pub zero-bit_and : (a : ℕ) → bit_and 0 a ≡ 0
zero-bit_and a = bit_and-bitwise 0 a

pub zero-bit_or : (a : ℕ) → bit_or 0 a ≡ a
zero-bit_or a = bit_or-bitwise 0 a

below : (k a : ℕ) → a ≤ k → (bit_and a 0 ≡ 0) × (bit_or a 0 ≡ a)
below k zero h = (refl, refl)
below zero (suc a) h = absurd (omega arith)
below (suc k) (suc a) h =
    let (ands, ors) = below k (suc a / 2) (omega arith) in
    (omega (arith, bit_and-low (suc a) 0, ands), omega (arith, bit_or-low (suc a) 0, ors))

pub bit_and-zero : (a : ℕ) → bit_and a 0 ≡ 0
bit_and-zero a = (below a a (omega arith)).0

pub bit_or-zero : (a : ℕ) → bit_or a 0 ≡ a
bit_or-zero a = (below a a (omega arith)).1

-- A mask of `k` ones takes the remainder.
pub bit_and-ones : (k a : ℕ) → bit_and a (2 ^ k - 1) ≡ a % 2 ^ k
bit_and-ones zero a = rw bit_and-zero (rw mod-one)
bit_and-ones (suc k) a =
    let pos : 0 < 2 ^ k = one-le-pow k 2 (omega arith) in
    rw (pow-suc 2 k) (ones (2 ^ k) pos (bit_and-ones k (a / 2)))
  where
    ones :
        (p : ℕ) → 0 < p → bit_and (a / 2) (p - 1) ≡ a / 2 % p → bit_and a (p * 2 - 1) ≡ a % (p * 2)
    ones p pos ih =
        let half : (p * 2 - 1) / 2 ≡ p - 1 = omega arith in
        let odd : (p * 2 - 1) % 2 ≡ 1 = omega arith in
        rw (bit_and-low a (p * 2 - 1), half, odd, ih)
          (omega (arith, half-mod a p pos, low-mod a p pos))

-- A mask whose `k` lowest bits are clear.
pub bit_and-shifted : (k a m : ℕ) → bit_and a (m * 2 ^ k) ≡ bit_and (a / 2 ^ k) m * 2 ^ k
bit_and-shifted k a m =
    let pos : 0 < 2 ^ k = one-le-pow k 2 (omega arith) in
    rw (bit_and-cut k a (m * 2 ^ k), mul-div_cancel m pos, mul-mod_left m (2 ^ k), bit_and-zero)
      (omega arith)

pub bit_or-shifted : (k a m : ℕ) → bit_or a (m * 2 ^ k) ≡ bit_or (a / 2 ^ k) m * 2 ^ k + a % 2 ^ k
bit_or-shifted k a m =
    let pos : 0 < 2 ^ k = one-le-pow k 2 (omega arith) in
    rw (bit_or-cut k a (m * 2 ^ k), mul-div_cancel m pos, mul-mod_left m (2 ^ k), bit_or-zero)

-- Two fields that do not overlap are added.
pub bit_or-fields : (k hi lo : ℕ) → lo < 2 ^ k → bit_or (hi * 2 ^ k) lo ≡ hi * 2 ^ k + lo
bit_or-fields k hi lo fits =
    let pos : 0 < 2 ^ k = one-le-pow k 2 (omega arith) in
    rw (
      bit_or-cut k (hi * 2 ^ k) lo,
      mul-div_cancel hi pos,
      mul-mod_left hi (2 ^ k),
      div-eq_of_lt fits,
      mod-eq_of_lt fits,
      bit_or-zero,
      zero-bit_or,
    )

-- The same with the low field written first.
pub bit_or-fields_low : (k lo hi : ℕ) → lo < 2 ^ k → bit_or lo (hi * 2 ^ k) ≡ hi * 2 ^ k + lo
bit_or-fields_low k lo hi fits =
    rw (bit_or-shifted k lo hi, div-eq_of_lt fits, mod-eq_of_lt fits, zero-bit_or)

-- One bit: its test, and the word with it set.
pub bit_and-bit : (k a : ℕ) → bit_and a (2 ^ k) ≡ a / 2 ^ k % 2 * 2 ^ k
bit_and-bit k a =
    ap (bit_and a) (sym (one-mul (2 ^ k)))
    ∙ bit_and-shifted k a 1
    ∙ ap (λ t. t * 2 ^ k) (bit_and-ones 1 (a / 2 ^ k))

pub bit_or-one : (a : ℕ) → bit_or a 1 ≡ a / 2 * 2 + 1
bit_or-one a = omega (arith, bit_or-low a 1, bit_or-zero (a / 2))

pub bit_or-bit : (k a : ℕ) → bit_or a (2 ^ k) ≡ (a / 2 ^ k / 2 * 2 + 1) * 2 ^ k + a % 2 ^ k
bit_or-bit k a =
    ap (bit_or a) (sym (one-mul (2 ^ k)))
    ∙ bit_or-shifted k a 1
    ∙ ap (λ t. t * 2 ^ k + a % 2 ^ k) (bit_or-one (a / 2 ^ k))
