-- ===== src/Base/Bits.antt =====
-- Single bits of a number, and what the native operations do to them.
use Prim.Native.Nat.{
  ℕ, zero, suc, ◌+◌, ◌*◌, ◌/◌, ◌%◌, ◌^◌, ◌≤◌, min, max, bit_and, bit_or, digits, bitwise,
  bit_and-bitwise, bit_or-bitwise,
}
use mathlib.Core.Path.{◌≡◌, refl, ap, ◌∙◌, sym}
use native.Mathlib.Omega.{arith}
use easy_lsm.Base.Tests.{◌==◌, if◌then◌else◌}

-- Bit `k` of `w`, as 0 or 1.
abbrev pub bit : ℕ → ℕ → ℕ
bit zero w = w % 2
bit (suc k) w = bit k (w / 2)

-- Any operation on the digits: one step of it, where the digits that are left over when the first
-- number has run out are those of the operation with zeros.
module _ (left_over : ℕ → ℕ) (op : ℕ → ℕ → ℕ) where
  enough : (n m a b : ℕ) → a ≤ n → a ≤ m → digits left_over op n a b ≡ digits left_over op m a b
  enough zero zero a b p q = refl
  enough zero (suc m) zero b p q = refl
  enough (suc n) zero zero b p q = refl
  enough (suc n) (suc m) zero b p q = refl
  enough zero (suc m) (suc a) b p q = absurd (omega arith)
  enough (suc n) zero (suc a) b p q = absurd (omega arith)
  enough (suc n) (suc m) (suc a) b p q =
      ap (λ (d : ℕ). d * 2 + op (suc a % 2) (b % 2))
        (enough n m (suc a / 2) (b / 2) (omega arith) (omega arith))

  one_digit :
      ((b : ℕ) → left_over b ≡ left_over (b / 2) * 2 + op 0 (b % 2))
      → (a b : ℕ)
      → bitwise left_over op a b ≡ bitwise left_over op (a / 2) (b / 2) * 2 + op (a % 2) (b % 2)
  one_digit zeros zero b = zeros b
  one_digit zeros (suc a) b =
      ap (λ (d : ℕ). d * 2 + op (suc a % 2) (b % 2))
        (enough a (suc a / 2) (suc a / 2) (b / 2) (omega arith) (omega arith))

and_digit : (a b : ℕ) → bit_and a b ≡ bit_and (a / 2) (b / 2) * 2 + min (a % 2) (b % 2)
and_digit a b =
    bit_and-bitwise a b
    ∙ one_digit (λ b. zero) min (λ b. omega arith) a b
    ∙ ap (λ (d : ℕ). d * 2 + min (a % 2) (b % 2)) (sym (bit_and-bitwise (a / 2) (b / 2)))

or_digit : (a b : ℕ) → bit_or a b ≡ bit_or (a / 2) (b / 2) * 2 + max (a % 2) (b % 2)
or_digit a b =
    bit_or-bitwise a b
    ∙ one_digit (λ b. b) max (λ b. omega arith) a b
    ∙ ap (λ (d : ℕ). d * 2 + max (a % 2) (b % 2)) (sym (bit_or-bitwise (a / 2) (b / 2)))

and_zero : (n a : ℕ) → a ≤ n → bit_and a 0 ≡ 0
and_zero n zero h = bit_and-bitwise 0 0
and_zero zero (suc a) h = absurd (omega arith)
and_zero (suc n) (suc a) h =
    omega (arith, and_digit (suc a) 0, and_zero n (suc a / 2) (omega arith))

or_zero : (n a : ℕ) → a ≤ n → bit_or a 0 ≡ a
or_zero n zero h = bit_or-bitwise 0 0
or_zero zero (suc a) h = absurd (omega arith)
or_zero (suc n) (suc a) h = omega (arith, or_digit (suc a) 0, or_zero n (suc a / 2) (omega arith))

half_pow : (k : ℕ) → 2 ^ suc k / 2 ≡ 2 ^ k
half_pow k = omega arith

even_pow : (k : ℕ) → 2 ^ suc k % 2 ≡ 0
even_pow k = omega arith

-- Masking one bit.
pub bit_and-pow : (k w : ℕ) → bit_and w (2 ^ k) ≡ bit k w * 2 ^ k
bit_and-pow zero w = omega (arith, and_digit w 1, and_zero (w / 2) (w / 2) (omega arith))
bit_and-pow (suc k) w =
    and_digit w (2 ^ suc k) ∙ rw (half_pow k, even_pow k, bit_and-pow k (w / 2)) (grind arith)

-- Setting bit `j` sets that bit, and keeps the others.
pub bit-bit_or : (j k w : ℕ) → bit k (bit_or w (2 ^ j)) ≡ (if j == k then 1 else bit k w)
bit-bit_or zero zero w = omega (arith, or_digit w 1)
bit-bit_or zero (suc k) w =
    rw
      (let e : bit_or w 1 / 2 ≡ w / 2 =
          omega (arith, or_digit w 1, or_zero (w / 2) (w / 2) (omega arith)) in
        e)
      (ground arith)
bit-bit_or (suc j) zero w = ground (arith, or_digit w (2 ^ suc j), even_pow j)
bit-bit_or (suc j) (suc k) w =
    rw
      (let e : bit_or w (2 ^ suc j) / 2 ≡ bit_or (w / 2) (2 ^ j) = omega (
        arith,
        or_digit w (2 ^ suc j),
        half_pow j,
        even_pow j,
        ap (bit_or (w / 2)) (half_pow j),
      ) in
        e)
      (ground (arith, bit-bit_or j k (w / 2)))
