-- ===== src/Chain/Rlp/RoundTrip.antt =====
-- What the encoder writes, the decoder reads back, whatever follows it.
use polymarket_live_maker.Prelude.{
  Bool, Bool-cases, Bytes, IsU64, List, [], append_assoc, arith, be_from, be_value, concat,
  drop-append, get_or, inl, inr, le, length, length-append, ltb, refl, some, suc, take-append, true,
  zero, ℕ, ◌%◌, ◌&&◌, ◌++◌, ◌+◌, ◌-◌, ◌<◌, ◌==◌, ◌>>=◌, ◌∙◌, ◌∷◌, ◌≡◌, ◌≤◌,
}
use polymarket_live_maker.Chain.Rlp.{
  encode_uint, min_be, append_len_prefix, encode_bytes, encode_list,
}
use polymarket_live_maker.Chain.Rlp.Decode.{
  Item, str, nested, split_at, split_long, decode_item, decode_loop, decode_items,
}
use polymarket_live_maker.Chain.Rlp.Numbers.{be_value-min_be, length-min_be-le}

split_at-append : (n : ℕ) (xs ys : Bytes) → length xs ≡ n → split_at n (xs ++ ys) ≡ some (xs, ys)
unfolding split_at
split_at-append n xs ys h =
    ground (arith, length-append xs ys, take-append n xs ys h, drop-append n xs ys h)

split_long-append :
    (n : ℕ) (xs rest : Bytes)
    → length (min_be (length xs)) ≡ n
    → IsU64 (length xs)
    → split_long n (min_be (length xs) ++ (xs ++ rest)) ≡ some (xs, rest)
unfolding split_long
split_long-append n xs rest h fits = ground (
  arith,
  split_at-append n (min_be (length xs)) (xs ++ rest) h,
  be_value-min_be (length xs) fits,
  split_at-append (length xs) xs rest refl,
)

pos_of_be_value : (bs : Bytes) → 0 < be_value bs → 0 < length bs
unfolding be_from
pos_of_be_value [] h = elim h [ ]
pos_of_be_value (b ∷ bs) h = omega arith

-- A length above 55 has a byte at least, and eight at most.
length-min_be-pos : (n : ℕ) → IsU64 n → 55 < n → 0 < length (min_be n)
length-min_be-pos n fits h = pos_of_be_value (min_be n) (omega (arith, be_value-min_be n fits))

-- The header of a string or of a list, at the tag that stands for it.
decode_item-str :
    (bs rest : Bytes)
    → IsU64 (length bs)
    → decode_item (append_len_prefix [] (length bs) 0x80 0xb7 ++ (bs ++ rest)) ≡ some (str bs, rest)
unfolding append_len_prefix decode_item
decode_item-str bs rest fits = ground (
  arith,
  length-min_be-pos (length bs) fits,
  length-min_be-le (length bs),
  split_at-append ((0x80 + length bs) % 256 - 0x80) bs rest,
  split_long-append ((0xb7 + length (min_be (length bs))) % 256 - 0xb7) bs rest,
)

decode_item-nested :
    (bs rest : Bytes)
    → IsU64 (length bs)
    → decode_item (append_len_prefix [] (length bs) 0xc0 0xf7 ++ (bs ++ rest))
      ≡ some (nested bs, rest)
unfolding append_len_prefix decode_item
decode_item-nested bs rest fits = ground (
  arith,
  length-min_be-pos (length bs) fits,
  length-min_be-le (length bs),
  split_at-append ((0xc0 + length bs) % 256 - 0xc0) bs rest,
  split_long-append ((0xf7 + length (min_be (length bs))) % 256 - 0xf7) bs rest,
)

-- One byte below 0x80 stands for itself; all else is written behind a prefix.
abbrev self_test : Bytes → Bool
self_test bs = length bs == 1 && ltb (get_or bs 0 0) 0x80

decode_item_self :
    (bs rest : Bytes)
    → self_test bs ≡ true
    → decode_item (get_or bs 0 0 ∷ rest) ≡ some (str bs, rest)
unfolding decode_item
decode_item_self [] rest e = ground arith
decode_item_self (b ∷ []) rest e = ground arith
decode_item_self (b ∷ c ∷ bs) rest e = absurd (ground arith)

-- A string of less than 2 ^ 64 bytes that EncodeBytes wrote is read back by the RLP decoder, and
-- what follows it is left.
pub decode_item-encode_bytes :
    (bs rest : Bytes)
    → IsU64 (length bs)
    → decode_item (encode_bytes bs ++ rest) ≡ some (str bs, rest)
unfolding encode_bytes
decode_item-encode_bytes bs rest fits = elim (Bool-cases (self_test bs)) [
  | inl e ↦ rw e (decode_item_self bs rest e)
  | inr e ↦ rw (e, append_assoc) (decode_item-str bs rest fits)
]

-- A list that EncodeList wrote, with a payload of less than 2 ^ 64 bytes, is read back by the RLP
-- decoder as a list of that payload, and what follows it is left.
pub decode_item-encode_list :
    (items : List Bytes) (rest : Bytes)
    → IsU64 (length (concat items))
    → decode_item (encode_list items ++ rest) ≡ some (nested (concat items), rest)
unfolding encode_list
decode_item-encode_list items rest fits =
    rw append_assoc (decode_item-nested (concat items) rest fits)

-- No encoding is empty, so every round of `decode_loop` takes a byte at least.
append_len_prefix_pos : (len s l : ℕ) → 0 < length (append_len_prefix [] len s l)
unfolding append_len_prefix
append_len_prefix_pos len s l = ground arith

pub length-encode_bytes-pos : (bs : Bytes) → 0 < length (encode_bytes bs)
unfolding encode_bytes
length-encode_bytes-pos bs = ground (
  arith,
  append_len_prefix_pos (length bs) 0x80 0xb7,
  length-append (append_len_prefix [] (length bs) 0x80 0xb7) bs,
)

pub length-encode_list-pos : (items : List Bytes) → 0 < length (encode_list items)
unfolding encode_list
length-encode_list-pos items = ground (
  arith,
  append_len_prefix_pos (length (concat items)) 0xc0 0xf7,
  length-append (append_len_prefix [] (length (concat items)) 0xc0 0xf7) (concat items),
)

-- `e` is an encoding of `it`.
pub record Encodes (it : Item) (e : Bytes) : Type 0 where
  pub nonempty : 0 < length e
  pub reads : (rest : Bytes) → decode_item (e ++ rest) ≡ some (it, rest)

-- Encodings of the items, one for one.
abbrev pub EncodesAll : List Item → List Bytes → Type 0
EncodesAll [] [] = Unit
EncodesAll [] (e ∷ es) = ⊥
EncodesAll (it ∷ its) [] = ⊥
EncodesAll (it ∷ its) (e ∷ es) = Encodes it e × EncodesAll its es

pub encode_bytes-Encodes : (bs : Bytes) → IsU64 (length bs) → Encodes (str bs) (encode_bytes bs)
encode_bytes-Encodes bs fits = record {
  nonempty = length-encode_bytes-pos bs;
  reads = λ rest. decode_item-encode_bytes bs rest fits;
}

pub encode_list-Encodes :
    (items : List Bytes)
    → IsU64 (length (concat items))
    → Encodes (nested (concat items)) (encode_list items)
encode_list-Encodes items fits = record {
  nonempty = length-encode_list-pos items;
  reads = λ rest. decode_item-encode_list items rest fits;
}

decode_loop_step :
    (fuel : ℕ) (bs rest : Bytes) (it : Item)
    → 0 < length bs
    → decode_item bs ≡ some (it, rest)
    → decode_loop (suc fuel) bs ≡ (decode_loop fuel rest >>= λ items. some (it ∷ items))
unfolding decode_loop
decode_loop_step fuel [] rest it h e = elim h [ ]
decode_loop_step fuel (b ∷ bs) rest it h e = rw e

decode_loop-concat :
    (its : List Item) (es : List Bytes) (fuel : ℕ)
    → EncodesAll its es
    → length (concat es) ≤ fuel
    → decode_loop fuel (concat es) ≡ some its
unfolding concat
decode_loop-concat [] [] fuel h le = unfold decode_loop in refl
decode_loop-concat [] (e ∷ es) fuel h le = elim h [ ]
decode_loop-concat (it ∷ its) [] fuel h le = elim h [ ]
decode_loop-concat (it ∷ its) (e ∷ es) zero (h, hs) le =
    absurd (omega (arith, length-append e (concat es), h.nonempty))
decode_loop-concat (it ∷ its) (e ∷ es) (suc fuel) (h, hs) le =
    let split = length-append e (concat es) in
    decode_loop_step fuel (e ++ concat es) (concat es) it (omega (arith, split, h.nonempty))
      (h.reads (concat es))
    ∙ rw (decode_loop-concat its es fuel hs (omega (arith, split, h.nonempty)))

-- The payload of an encoded list decodes to its items.
pub decode_items-concat :
    (its : List Item) (es : List Bytes) → EncodesAll its es → decode_items (concat es) ≡ some its
unfolding decode_items
decode_items-concat its es h = decode_loop-concat its es (length (concat es)) h (omega arith)

-- A header takes nine bytes at most.
append_len_prefix-le : (len s l : ℕ) → length (append_len_prefix [] len s l) ≤ 9
unfolding append_len_prefix
append_len_prefix-le len s l = ground (arith, length-min_be-le len)

pub length-encode_bytes-le : (bs : Bytes) → length (encode_bytes bs) ≤ length bs + 9
unfolding encode_bytes
length-encode_bytes-le bs = ground (
  arith,
  append_len_prefix-le (length bs) 0x80 0xb7,
  length-append (append_len_prefix [] (length bs) 0x80 0xb7) bs,
)

pub length-encode_list-le :
    (items : List Bytes) → length (encode_list items) ≤ length (concat items) + 9
unfolding encode_list
length-encode_list-le items = omega (
  arith,
  append_len_prefix-le (length (concat items)) 0xc0 0xf7,
  length-append (append_len_prefix [] (length (concat items)) 0xc0 0xf7) (concat items),
)

pub encode_uint-Encodes : (v : ℕ) → Encodes (str (min_be v)) (encode_uint v)
unfolding encode_uint
encode_uint-Encodes v = encode_bytes-Encodes (min_be v) (omega (arith, length-min_be-le v))

pub length-encode_uint-le : (v : ℕ) → length (encode_uint v) ≤ 17
unfolding encode_uint
length-encode_uint-le v = omega (arith, length-encode_bytes-le (min_be v), length-min_be-le v)
