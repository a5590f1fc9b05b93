-- ===== src/Prelude/Bits.antt =====
-- The bitwise or of a number with four free low digits.
use Prim.Native.Nat.{ℕ, zero, suc, ◌+◌, ◌/◌, ◌%◌, ◌≤◌, ◌<◌, max, bit_or, bit_or-bitwise, digits}
use mathlib.Core.Path.{◌≡◌, refl, ◌∙◌}
use native.Mathlib.Omega.{arith}

or_digits : ℕ → ℕ → ℕ → ℕ
or_digits n a b = digits (λ b. b) max n a b

or_digits_zero : (n a : ℕ) → a ≤ n → or_digits n a 0 ≡ a
unfolding or_digits
or_digits_zero zero a h = omega arith
or_digits_zero (suc n) zero h = refl
or_digits_zero (suc n) (suc a) h = omega (arith, or_digits_zero n (suc a / 2) (omega arith))

or_digits_2 : (n a b : ℕ) → a ≤ n → a % 2 ≡ 0 → b < 2 → or_digits n a b ≡ a + b
unfolding or_digits
or_digits_2 zero a b h e l = omega arith
or_digits_2 (suc n) zero b h e l = omega arith
or_digits_2 (suc n) (suc a) b h e l =
    let half : b / 2 ≡ 0 = omega arith in
    rw half (omega (arith, or_digits_zero n (suc a / 2) (omega arith)))

or_digits_4 : (n a b : ℕ) → a ≤ n → a % 4 ≡ 0 → b < 4 → or_digits n a b ≡ a + b
unfolding or_digits
or_digits_4 zero a b h e l = omega arith
or_digits_4 (suc n) zero b h e l = omega arith
or_digits_4 (suc n) (suc a) b h e l =
    omega (arith, or_digits_2 n (suc a / 2) (b / 2) (omega arith) (omega arith) (omega arith))

or_digits_8 : (n a b : ℕ) → a ≤ n → a % 8 ≡ 0 → b < 8 → or_digits n a b ≡ a + b
unfolding or_digits
or_digits_8 zero a b h e l = omega arith
or_digits_8 (suc n) zero b h e l = omega arith
or_digits_8 (suc n) (suc a) b h e l =
    omega (arith, or_digits_4 n (suc a / 2) (b / 2) (omega arith) (omega arith) (omega arith))

or_digits_16 : (n a b : ℕ) → a ≤ n → a % 16 ≡ 0 → b < 16 → or_digits n a b ≡ a + b
unfolding or_digits
or_digits_16 zero a b h e l = omega arith
or_digits_16 (suc n) zero b h e l = omega arith
or_digits_16 (suc n) (suc a) b h e l =
    omega (arith, or_digits_8 n (suc a / 2) (b / 2) (omega arith) (omega arith) (omega arith))

-- A hex digit is put where the shift has made room for it.
pub bit_or-digit : (a b : ℕ) → a % 16 ≡ 0 → b < 16 → bit_or a b ≡ a + b
unfolding or_digits
bit_or-digit a b e l = (λ i. bit_or-bitwise a b i) ∙ or_digits_16 a a b (omega arith) e l
