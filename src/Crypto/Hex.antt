-- ===== src/Crypto/Hex.antt =====
-- Hex strings: HexToBytes of cpp/src/pmm/crypto/eip712_v2.cpp reads them, to_hex of
-- cpp/src/pmm/chain/merge_flatten.cpp writes them. A string is the list of its characters' codes.
use polymarket_live_maker.Prelude.{
  Bool, Bytes, IsByte, IsBytes, Option, [], all_below, all_below_sound, arith, bit_and, bit_or,
  codes, drop, false, get_or, if◌then◌else◌, leb, length, none, refl, some, true, ℕ, ◌&&◌, ◌*◌, ◌+◌,
  ◌-◌, ◌/◌, ◌==◌, ◌||◌, ◌∷◌, ◌≡◌,
}

-- `none` stands for -1.
unfoldable pub hex_val : ℕ → Option ℕ
hex_val c =
    if leb b'0' c && leb c b'9'
    then some (c - b'0')
    else if leb b'a' c && leb c b'f'
    then some (c - b'a' + 10)
    else if leb b'A' c && leb c b'F'
    then some (c - b'A' + 10)
    else none

unfoldable pub strip_zx : Bytes → Bytes
strip_zx h =
    if leb 2 (length h) && get_or h 0 0 == b'0' && (get_or h 1 0 == b'x' || get_or h 1 0 == b'X')
    then drop 2 h
    else h

-- One round of the loop: `(hi << 4) | lo`.
unfoldable pub hex_pair : Option ℕ → Option ℕ → Option ℕ
hex_pair (some hi) (some lo) = some (bit_or (hi * 16) lo)
hex_pair _ _ = none

push_front : Option ℕ → Option Bytes → Option Bytes
push_front (some b) (some bs) = some (b ∷ bs)
push_front _ _ = none

-- The loop over the pairs. The length was tested to be even, so a single character is never left.
unfoldable pub hex_pairs : Bytes → Option Bytes
unfolding hex_val hex_pair push_front
hex_pairs [] = some []
hex_pairs (c ∷ []) = none
hex_pairs (c ∷ d ∷ rest) = push_front (hex_pair (hex_val c) (hex_val d)) (hex_pairs rest)

-- `none` stands for `return false`, after which no caller reads `out`.
unfoldable pub hex_to_bytes : Bytes → ℕ → Option Bytes
unfolding hex_pairs strip_zx
hex_to_bytes hex n = if length (strip_zx hex) == n * 2 then hex_pairs (strip_zx hex) else none

unfoldable pub address_from_hex : Bytes → Option Bytes
unfolding hex_to_bytes
address_from_hex hex = hex_to_bytes hex 20

unfoldable pub bytes32_from_hex : Bytes → Option Bytes
unfolding hex_to_bytes
bytes32_from_hex hex = hex_to_bytes hex 32

abbrev digits : Bytes
digits = codes "0123456789abcdef"

unfoldable pub hex_digits : Bytes → Bytes
hex_digits [] = []
hex_digits (b ∷ bs) = get_or digits (b / 16) 0 ∷ get_or digits (bit_and b 0x0f) 0 ∷ hex_digits bs

unfoldable pub to_hex : Bytes → Bytes
unfolding hex_digits
to_hex bs = b'0' ∷ b'x' ∷ hex_digits bs

same : ℕ → Option ℕ → Bool
same b none = false
same b (some x) = x == b

byte_table :
    all_below 256 (λ b.
      same b (
        hex_pair (hex_val (get_or digits (b / 16) 0)) (hex_val (get_or digits (bit_and b 0x0f) 0))))
    ≡ true
unfolding all_below hex_val hex_pair same
byte_table = refl

same→eq : (b : ℕ) (o : Option ℕ) → same b o ≡ true → o ≡ some b
unfolding same
same→eq b none h = cc
same→eq b (some x) h = ground arith

-- The two digits of a byte are read back to it.
hex_pair-digits :
    (b : ℕ)
    → IsByte b
    → hex_pair (hex_val (get_or digits (b / 16) 0)) (hex_val (get_or digits (bit_and b 0x0f) 0))
      ≡ some b
hex_pair-digits b h = same→eq b _ (all_below_sound _ b 256 h byte_table)

hex_pairs-cons :
    (c d : ℕ) (rest : Bytes) {b : ℕ} {bs : Bytes}
    → hex_pair (hex_val c) (hex_val d) ≡ some b
    → hex_pairs rest ≡ some bs
    → hex_pairs (c ∷ d ∷ rest) ≡ some (b ∷ bs)
unfolding hex_pairs push_front
hex_pairs-cons c d rest e r = rw (e, r)

hex_pairs-hex_digits : (bs : Bytes) → IsBytes bs → hex_pairs (hex_digits bs) ≡ some bs
unfolding hex_digits
hex_pairs-hex_digits [] h = unfold hex_pairs in refl
hex_pairs-hex_digits (b ∷ bs) (h, hs) =
    hex_pairs-cons _ _ (hex_digits bs) (hex_pair-digits b h) (hex_pairs-hex_digits bs hs)

length-hex_digits : (bs : Bytes) → length (hex_digits bs) ≡ length bs * 2
unfolding hex_digits
length-hex_digits [] = refl
length-hex_digits (b ∷ bs) = omega (arith, length-hex_digits bs)

-- A byte string printed in hex with its 0x prefix is read back, if its length is the one asked for.
pub hex_to_bytes-to_hex : (bs : Bytes) → IsBytes bs → hex_to_bytes (to_hex bs) (length bs) ≡ some bs
unfolding hex_to_bytes to_hex
hex_to_bytes-to_hex bs h = ground (arith, hex_pairs-hex_digits bs h, length-hex_digits bs)

-- Whatever was read, letters in capitals read the same.
abbrev upper : ℕ → ℕ
upper c = if leb b'a' c && leb c b'f' then c - 32 else c

pub hex_val-upper : (c : ℕ) → hex_val (upper c) ≡ hex_val c
unfolding hex_val
hex_val-upper c = ground arith
