-- ===== src/Chain/Rlp.antt =====
-- cpp/src/pmm/chain/rlp.cpp: the RLP encoder. A byte vector is a list of numbers below 256, a
-- pointer with its length is that list, and `size_t` is the length of the list.
pub mod Decode
pub mod Numbers
pub mod RoundTrip
use polymarket_live_maker.Prelude.{
  Bytes, List, [], concat, get_or, if◌then◌else◌, leb, length, ltb, suc, zero, ℕ, ◌%◌, ◌&&◌, ◌++◌,
  ◌+◌, ◌/◌, ◌==◌, ◌∷◌,
}

-- `while (n != 0) { buf[--i] = n & 0xff; n >>= 8; }`: `out` is `buf + i .. buf + 8`.
unfoldable pub min_be_loop : ℕ → ℕ → Bytes → Bytes
min_be_loop zero n out = out
min_be_loop (suc room) n out =
    let rest = min_be_loop room (n / 256) (n % 256 ∷ out) in if n == 0 then out else rest

-- The buffer has eight bytes, and a `uint64_t` fills no more.
unfoldable pub min_be : ℕ → Bytes
unfolding min_be_loop
min_be n = min_be_loop 8 n []

unfoldable pub append_len_prefix : Bytes → ℕ → ℕ → ℕ → Bytes
append_len_prefix out len short_tag long_tag =
    if leb len 55
    then out ++ ((short_tag + len) % 256 ∷ [])
    else let be = min_be len in out ++ ((long_tag + length be) % 256 ∷ be)

unfoldable pub encode_bytes : Bytes → Bytes
encode_bytes text =
    if length text == 1 && ltb (get_or text 0 0) 0x80
    then get_or text 0 0 ∷ []
    else append_len_prefix [] (length text) 0x80 0xb7 ++ text

unfoldable pub encode_uint : ℕ → Bytes
encode_uint v = encode_bytes (min_be v)

-- `while (i < len && be[i] == 0) ++i;`, as what is left from `i` on.
unfoldable pub strip_zeros : Bytes → Bytes
strip_zeros [] = []
strip_zeros (b ∷ bs) = if b == 0 then strip_zeros bs else b ∷ bs

unfoldable pub encode_uint_be : Bytes → Bytes
encode_uint_be be = encode_bytes (strip_zeros be)

unfoldable pub encode_list : List Bytes → Bytes
encode_list items =
    let payload = concat items in append_len_prefix [] (length payload) 0xc0 0xf7 ++ payload
