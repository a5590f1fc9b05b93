-- ===== src/Crypto/Keccak.antt =====
-- Keccak256 of cpp/src/pmm/crypto/eip712_v2.cpp, with its permutation Keccak-f[1600]. A lane is a
-- number below 2 ^ 64, and the state a list of 25 lanes; `reinterpret_cast` to bytes is read on a
-- little-endian machine.
use polymarket_live_maker.Prelude.{
  All-append, Bytes, IsBytes, List, [], ap, arith, be_from, be_value, bit_and, bit_or, bit_xor,
  drop, for_range, get_or, if◌then◌else◌, leb, length, length-append, refl, replicate, set, suc,
  take, zero, ℕ, ◌%◌, ◌*◌, ◌++◌, ◌+◌, ◌-◌, ◌/◌, ◌^◌, ◌∷◌, ◌≡◌,
}

abbrev u64 : ℕ
u64 = 2 ^ 64

-- `x << n` drops what leaves the word.
unfoldable pub rotl64 : ℕ → ℕ → ℕ
rotl64 x n = bit_or (x * 2 ^ n % u64) (x / 2 ^ (64 - n))

abbrev lane : List ℕ → ℕ → ℕ
lane st i = get_or st i 0

abbrev rc : List ℕ
rc =
    0x0000000000000001 ∷ 0x0000000000008082 ∷ 0x800000000000808a ∷ 0x8000000080008000
    ∷ 0x000000000000808b ∷ 0x0000000080000001 ∷ 0x8000000080008081 ∷ 0x8000000000008009
    ∷ 0x000000000000008a ∷ 0x0000000000000088 ∷ 0x0000000080008009 ∷ 0x000000008000000a
    ∷ 0x000000008000808b ∷ 0x800000000000008b ∷ 0x8000000000008089 ∷ 0x8000000000008003
    ∷ 0x8000000000008002 ∷ 0x8000000000000080 ∷ 0x000000000000800a ∷ 0x800000008000000a
    ∷ 0x8000000080008081 ∷ 0x8000000000008080 ∷ 0x0000000080000001 ∷ 0x8000000080008008 ∷ []

-- PIL and ROT, side by side.
abbrev pil_rot : List (ℕ × ℕ)
pil_rot =
    (10, 1)
    ∷ (7, 3)
    ∷ (11, 6)
    ∷ (17, 10)
    ∷ (18, 15)
    ∷ (3, 21)
    ∷ (5, 28)
    ∷ (16, 36)
    ∷ (8, 45)
    ∷ (21, 55)
    ∷ (24, 2)
    ∷ (4, 14)
    ∷ (15, 27)
    ∷ (23, 41)
    ∷ (19, 56)
    ∷ (13, 8)
    ∷ (12, 25)
    ∷ (2, 43)
    ∷ (20, 62)
    ∷ (14, 18)
    ∷ (22, 39)
    ∷ (9, 61)
    ∷ (6, 20)
    ∷ (1, 44)
    ∷ []

column : List ℕ → ℕ → ℕ
column st i =
    bit_xor
      (bit_xor (bit_xor (bit_xor (lane st i) (lane st (i + 5))) (lane st (i + 10)))
        (lane st (i + 15)))
      (lane st (i + 20))

xor_lane : ℕ → ℕ → List ℕ → List ℕ
xor_lane i t st = set st i (bit_xor (lane st i) t)

-- The loop over `i` with the five column parities, taken before any lane changes.
theta : List ℕ → List ℕ
unfolding rotl64 for_range column xor_lane
theta st =
    let bc = column st 0 ∷ column st 1 ∷ column st 2 ∷ column st 3 ∷ column st 4 ∷ [] in
    for_range 5 0
      (λ i s.
        let t = bit_xor (lane bc ((i + 4) % 5)) (rotl64 (lane bc ((i + 1) % 5)) 1) in
        for_range 5 0 (λ k. xor_lane (5 * k + i) t) s)
      st

rho_pi : List (ℕ × ℕ) → ℕ → List ℕ → List ℕ
unfolding rotl64
rho_pi [] t st = st
rho_pi ((j, rot) ∷ rest) t st = rho_pi rest (lane st j) (set st j (rotl64 t rot))

-- `~x & y` on 64 bits, over one row of five lanes.
chi : List ℕ → List ℕ
unfolding for_range xor_lane
chi st =
    for_range 5 0
      (λ k s.
        let j = 5 * k in
        let bc =
          lane s j ∷ lane s (j + 1) ∷ lane s (j + 2) ∷ lane s (j + 3) ∷ lane s (j + 4) ∷ [] in
        for_range 5 0
          (λ i.
            xor_lane (j + i)
              (bit_and (bit_xor (lane bc ((i + 1) % 5)) (u64 - 1)) (lane bc ((i + 2) % 5))))
          s)
      st

rounds : List ℕ → List ℕ → List ℕ
unfolding theta rho_pi chi xor_lane
rounds [] st = st
rounds (c ∷ cs) st =
    let a = theta st in let b = rho_pi pil_rot (lane a 1) a in rounds cs (xor_lane 0 c (chi b))

unfoldable pub keccak_f : List ℕ → List ℕ
unfolding rounds
keccak_f st = rounds rc st

-- `sb[k] ^= data[k]` for each byte, `k` counting up.
absorb : ℕ → Bytes → List ℕ → List ℕ
unfolding xor_lane
absorb k [] st = st
absorb k (b ∷ bs) st = absorb (k + 1) bs (xor_lane (k / 8) (b * 2 ^ (8 * (k % 8))) st)

abbrev rate : ℕ
rate = 136

-- The last block: `tmp[len] ^= 0x01` and `tmp[135] ^= 0x80` on zeros, `len` below 136.
pad : Bytes → Bytes
pad bs =
    let tmp = bs ++ replicate (rate - length bs) 0 in
    let t1 = set tmp (length bs) (bit_xor (get_or tmp (length bs) 0) 0x01) in
    set t1 (rate - 1) (bit_xor (get_or t1 (rate - 1) 0) 0x80)

-- `while (len >= kRate)`; each round takes 136 bytes, so as many rounds as bytes are enough.
sponge : ℕ → Bytes → List ℕ → List ℕ
unfolding absorb keccak_f pad
sponge zero bs st = keccak_f (absorb 0 (pad bs) st)
sponge (suc fuel) bs st =
    let rest = sponge fuel (drop rate bs) (keccak_f (absorb 0 (take rate bs) st)) in
    let last = keccak_f (absorb 0 (pad bs) st) in if leb rate (length bs) then rest else last

lane_bytes : ℕ → ℕ → Bytes
lane_bytes zero x = []
lane_bytes (suc n) x = x % 256 ∷ lane_bytes n (x / 256)

unfoldable pub keccak256 : Bytes → Bytes
unfolding sponge lane_bytes
keccak256 bs =
    let st = sponge (length bs) bs (replicate 25 0) in
    lane_bytes 8 (lane st 0)
    ++ (lane_bytes 8 (lane st 1) ++ (lane_bytes 8 (lane st 2) ++ lane_bytes 8 (lane st 3)))

length-lane_bytes : (n x : ℕ) → length (lane_bytes n x) ≡ n
unfolding lane_bytes
length-lane_bytes zero x = refl
length-lane_bytes (suc n) x = ap suc (length-lane_bytes n (x / 256))

lane_bytes-IsBytes : (n x : ℕ) → IsBytes (lane_bytes n x)
unfolding lane_bytes
lane_bytes-IsBytes zero x = tt
lane_bytes-IsBytes (suc n) x = (omega arith, lane_bytes-IsBytes n (x / 256))

pub length-keccak256 : (bs : Bytes) → length (keccak256 bs) ≡ 32
unfolding keccak256
length-keccak256 bs = omega (arith, length-append {0}, length-lane_bytes)

pub keccak256-IsBytes : (bs : Bytes) → IsBytes (keccak256 bs)
unfolding keccak256
keccak256-IsBytes bs = search (All-append, lane_bytes-IsBytes)

-- The vector that eip712_v2.hpp names.
keccak256_empty :
    be_value (keccak256 []) ≡ 0xc5d2460186f7233c927e7db2dcc703c0e500b653ca82273b7bfad8045d85a470
unfolding keccak256 be_from
keccak256_empty = refl
