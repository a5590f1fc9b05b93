-- ===== src/Chain/Rlp/Numbers.antt =====
-- The shortest big-endian form of a `uint64_t`: its value, its length, and no leading zero.
use polymarket_live_maker.Prelude.{
  Bool-cases, Bytes, IsBytes, IsU64, [], arith, be_from, be_value, inl, inr, length, refl, suc,
  zero, ℕ, ◌%◌, ◌+◌, ◌/◌, ◌<◌, ◌==◌, ◌^◌, ◌∷◌, ◌≡◌, ◌≢◌, ◌≤◌,
}
use polymarket_live_maker.Chain.Rlp.{min_be_loop, min_be, strip_zeros}

be_from-min_be_loop :
    (room n : ℕ) (out : Bytes) → n < 256 ^ room → be_from 0 (min_be_loop room n out) ≡ be_from n out
unfolding min_be_loop be_from
be_from-min_be_loop zero n out h = ground arith
be_from-min_be_loop (suc room) n out h =
    ground (arith, be_from-min_be_loop room (n / 256) (n % 256 ∷ out))

pub be_value-min_be : (n : ℕ) → IsU64 n → be_value (min_be n) ≡ n
unfolding min_be be_from
be_value-min_be n h = be_from-min_be_loop 8 n [] h

length-min_be_loop :
    (room n : ℕ) (out : Bytes) → length (min_be_loop room n out) ≤ room + length out
unfolding min_be_loop
length-min_be_loop zero n out = omega arith
length-min_be_loop (suc room) n out =
    ground (arith, length-min_be_loop room (n / 256) (n % 256 ∷ out))

pub length-min_be-le : (n : ℕ) → length (min_be n) ≤ 8
unfolding min_be
length-min_be-le n = omega (arith, length-min_be_loop 8 n [])

min_be_loop-IsBytes : (room n : ℕ) (out : Bytes) → IsBytes out → IsBytes (min_be_loop room n out)
unfolding min_be_loop
min_be_loop-IsBytes zero n out h = h
min_be_loop-IsBytes (suc room) n out h =
    ground (arith, min_be_loop-IsBytes room (n / 256) (n % 256 ∷ out))

pub min_be-IsBytes : (n : ℕ) → IsBytes (min_be n)
unfolding min_be
min_be-IsBytes n = min_be_loop-IsBytes 8 n [] tt

-- No leading zero.
abbrev pub IsCanonical : Bytes → Type 0
IsCanonical [] = Unit {0}
IsCanonical (b ∷ bs) = b ≢ 0

min_be_loop-IsCanonical :
    (room n : ℕ) (out : Bytes)
    → n < 256 ^ room
    → (n ≡ 0 → IsCanonical out)
    → IsCanonical (min_be_loop room n out)
unfolding min_be_loop
min_be_loop-IsCanonical zero n out h c = c (omega arith)
min_be_loop-IsCanonical (suc room) n out h c = elim (Bool-cases (n == 0)) [
  | inl e ↦ ground (arith, c (ground arith))
  | inr e ↦ ground (
    arith,
    min_be_loop-IsCanonical room (n / 256) (n % 256 ∷ out) (omega arith) (λ z. ground arith),
  )
]

pub min_be-IsCanonical : (n : ℕ) → IsU64 n → IsCanonical (min_be n)
unfolding min_be
min_be-IsCanonical n h = min_be_loop-IsCanonical 8 n [] h (λ _. tt)

pub strip_zeros-IsCanonical : (be : Bytes) → IsCanonical (strip_zeros be)
unfolding strip_zeros
strip_zeros-IsCanonical [] = tt
strip_zeros-IsCanonical (b ∷ bs) = ground (arith, strip_zeros-IsCanonical bs)

pub be_value-strip_zeros : (be : Bytes) → be_value (strip_zeros be) ≡ be_value be
unfolding strip_zeros be_from
be_value-strip_zeros [] = refl
be_value-strip_zeros (b ∷ bs) = ground (arith, be_value-strip_zeros bs)

pub length-strip_zeros-le : (be : Bytes) → length (strip_zeros be) ≤ length be
unfolding strip_zeros
length-strip_zeros-le [] = omega arith
length-strip_zeros-le (b ∷ bs) = ground (arith, length-strip_zeros-le bs)
