-- ===== src/Crypto/Words/Laws.antt =====
-- What a word stands for: the number that its bytes spell.
use polymarket_live_maker.Prelude.{
  Bytes, IsBytes, IsU64, [], ap, arith, be_from, be_value, length, refl, suc, sym, ℕ, ◌%◌, ◌*◌, ◌+◌,
  ◌/◌, ◌^◌, ◌∙◌, ◌∷◌, ◌≡◌,
}
use native.Mathlib.Nat.{div-add-mod, pow-suc}
use polymarket_live_maker.Crypto.Words.{u256_from_u64, times_ten}

pub length-u256_from_u64 : (v : ℕ) → length (u256_from_u64 v) ≡ 32
unfolding u256_from_u64
length-u256_from_u64 v = refl

pub u256_from_u64-IsBytes : (v : ℕ) → IsBytes (u256_from_u64 v)
unfolding u256_from_u64
u256_from_u64-IsBytes v = omega arith

-- The word of a `uint64_t` has that value.
pub be_value-u256_from_u64 : (v : ℕ) → IsU64 v → be_value (u256_from_u64 v) ≡ v
unfolding u256_from_u64 be_from
be_value-u256_from_u64 v h = omega arith

pub u256_from_u64-injective :
    (v w : ℕ) → IsU64 v → IsU64 w → u256_from_u64 v ≡ u256_from_u64 w → v ≡ w
u256_from_u64-injective v w hv hw e =
    sym (be_value-u256_from_u64 v hv) ∙ ap be_value e ∙ be_value-u256_from_u64 w hw

pub length-times_ten : (bs : Bytes) (carry : ℕ) → length (times_ten bs carry).0 ≡ length bs
unfolding times_ten
length-times_ten [] carry = refl
length-times_ten (b ∷ bs) carry = ap suc (length-times_ten bs carry)

-- One more digit in front, at the weight `p` of the digits behind it.
cons_weight :
    (acc b p v : ℕ) {w u : ℕ}
    → w ≡ (acc * 256 + b) * p + v
    → u ≡ (0 + b) * p + v
    → w ≡ acc * (p * 256) + u
cons_weight acc b p v h k = omega arith

pub be_from-linear : (acc : ℕ) (bs : Bytes) → be_from acc bs ≡ acc * 256 ^ length bs + be_value bs
unfolding be_from
be_from-linear acc [] = omega arith
be_from-linear acc (b ∷ bs) = rw (pow-suc 256 (length bs)) (
    cons_weight acc b (256 ^ length bs) (be_value bs) (be_from-linear (acc * 256 + b) bs)
      (be_from-linear (0 + b) bs))

carry_weight :
    (b c p q r carry o v : ℕ) {w u : ℕ}
    → c * p + o ≡ 10 * v + carry
    → 256 * q + r ≡ b * 10 + c
    → w ≡ (0 + r) * p + o
    → u ≡ (0 + b) * p + v
    → q * (p * 256) + w ≡ 10 * u + carry
carry_weight b c p q r carry o v h e hw hu = omega (arith, ap (λ (t : ℕ). t * p) e)

-- Ten times a number, a digit added: the carry is what does not fit.
pub be_value-times_ten :
    (bs : Bytes) (carry : ℕ)
    → (times_ten bs carry).1 * 256 ^ length bs + be_value (times_ten bs carry).0
      ≡ 10 * be_value bs + carry
unfolding times_ten be_from
be_value-times_ten [] carry = omega arith
be_value-times_ten (b ∷ bs) carry =
    let out : Bytes = (times_ten bs carry).0 in
    let c : ℕ = (times_ten bs carry).1 in
    let x : ℕ = b * 10 + c in
    rw (pow-suc 256 (length bs)) (
      carry_weight b c (256 ^ length bs) (x / 256) (x % 256) carry (be_value out) (be_value bs)
        (be_value-times_ten bs carry) (div-add-mod x 256)
        (rw (length-times_ten bs carry) at (be_from-linear (0 + x % 256) out))
        (be_from-linear (0 + b) bs))

pub times_ten-IsBytes : (bs : Bytes) (carry : ℕ) → IsBytes (times_ten bs carry).0
unfolding times_ten
times_ten-IsBytes [] carry = tt
times_ten-IsBytes (b ∷ bs) carry = (omega arith, times_ten-IsBytes bs carry)
