-- ===== src/Crypto/Words.antt =====
-- 256-bit words of cpp/src/pmm/crypto/eip712_v2.cpp: 32 bytes, the highest first.
pub mod Laws
pub mod Decimal
use polymarket_live_maker.Prelude.{
  Bool, Bytes, Option, [], for_range, if◌then◌else◌, leb, none, replicate, set, some, ℕ, ◌%◌, ◌&&◌,
  ◌*◌, ◌+◌, ◌-◌, ◌/◌, ◌==◌, ◌^◌, ◌∷◌,
}

abbrev pub zero32 : Bytes
zero32 = replicate 32 0

-- `out[31 - i] = v >> (8 * i)` for i < 8.
unfoldable pub u256_from_u64 : ℕ → Bytes
unfolding for_range
u256_from_u64 v = for_range 8 0 (λ i out. set out (31 - i) (v / 2 ^ (8 * i) % 256)) zero32

-- The inner loop of U256FromDecimal, from the last byte to the first: ten times the number and a
-- digit, with the carry that leaves the front.
unfoldable pub times_ten : Bytes → ℕ → Bytes × ℕ
times_ten [] carry = ([], carry)
times_ten (b ∷ bs) carry =
    let (bs', c) = times_ten bs carry in let x = b * 10 + c in (x % 256 ∷ bs', x / 256)

unfoldable pub is_digit : ℕ → Bool
is_digit c = leb b'0' c && leb c b'9'

-- The loop over the digits; `none` stands for `return false`, after which no caller reads `out`.
unfoldable pub decimal_loop : Bytes → Bytes → Option Bytes
unfolding times_ten is_digit
decimal_loop [] out = some out
decimal_loop (c ∷ cs) out =
    let (out', carry) = times_ten out (c - b'0') in
    let rest = decimal_loop cs out' in
    if is_digit c then (if carry == 0 then rest else none) else none

unfoldable pub u256_from_decimal : Bytes → Option Bytes
unfolding decimal_loop
u256_from_decimal [] = none
u256_from_decimal (c ∷ cs) = decimal_loop (c ∷ cs) zero32
