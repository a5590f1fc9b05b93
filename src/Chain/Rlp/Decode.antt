-- ===== src/Chain/Rlp/Decode.antt =====
-- The RLP format read back, after the Ethereum specification: the independent description that
-- the encoder of rlp.cpp is measured against. It models no code of the program.
use polymarket_live_maker.Prelude.{
  Bytes, List, Option, [], be_value, drop, if◌then◌else◌, leb, length, ltb, none, some, suc, take,
  zero, ℕ, ◌-◌, ◌>>=◌, ◌∷◌,
}

-- A string with its bytes, or a list with its undecoded payload.
pub data Item : Type 0 where
  str : Bytes → Item
  nested : Bytes → Item

-- The first `n` bytes and what follows them, if there are so many.
unfoldable pub split_at : ℕ → Bytes → Option (Bytes × Bytes)
split_at n bs = if leb n (length bs) then some (take n bs, drop n bs) else none

-- `n` bytes of length, then the payload.
unfoldable pub split_long : ℕ → Bytes → Option (Bytes × Bytes)
unfolding split_at
split_long n bs = do (len, rest) ← split_at n bs; split_at (be_value len) rest

as_item : (Bytes → Item) → Option (Bytes × Bytes) → Option (Item × Bytes)
as_item f none = none
as_item f (some (payload, rest)) = some (f payload, rest)

unfoldable pub decode_item : Bytes → Option (Item × Bytes)
unfolding as_item
decode_item [] = none
decode_item (b ∷ bs) =
    if ltb b 0x80
    then some (str (b ∷ []), bs)
    else if ltb b 0xb8
    then as_item str (split_at (b - 0x80) bs)
    else if ltb b 0xc0
    then as_item str (split_long (b - 0xb7) bs)
    else if ltb b 0xf8
    then as_item nested (split_at (b - 0xc0) bs)
    else as_item nested (split_long (b - 0xf7) bs)

-- Every item takes a byte at least, so the length of the payload is fuel enough.
unfoldable pub decode_loop : ℕ → Bytes → Option (List Item)
decode_loop fuel [] = some []
decode_loop zero (b ∷ bs) = none
decode_loop (suc fuel) (b ∷ bs) = do
  (it, rest) ← decode_item (b ∷ bs)
  items ← decode_loop fuel rest
  some (it ∷ items)

unfoldable pub decode_items : Bytes → Option (List Item)
decode_items payload = decode_loop (length payload) payload
