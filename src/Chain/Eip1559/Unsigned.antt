-- ===== src/Chain/Eip1559/Unsigned.antt =====
-- The bytes that are signed tell every field of the transaction.
use polymarket_live_maker.Prelude.{
  Bytes, IsU64, List, Option, [], ap, append-nil, arith, be_value, concat, get_or, if◌then◌else◌,
  length, length-append, none, some, some-injective, sym, ℕ, ◌+◌, ◌<◌, ◌==◌, ◌^◌, ◌∙◌, ◌∷◌, ◌≡◌,
  ◌≤◌,
}
use polymarket_live_maker.Chain.Rlp.{min_be, encode_list}
use polymarket_live_maker.Chain.Rlp.Decode.{Item, str, nested, decode_item, decode_items}
use polymarket_live_maker.Chain.Rlp.Numbers.{be_value-min_be}
use polymarket_live_maker.Chain.Rlp.RoundTrip.{
  EncodesAll, encode_bytes-Encodes, encode_list-Encodes, encode_uint-Encodes, length-encode_uint-le,
  length-encode_bytes-le, length-encode_list-le, decode_item-encode_list, decode_items-concat,
}
use polymarket_live_maker.Chain.Eip1559.{Eip1559Tx, unsigned_items, encode_unsigned}

-- The types of the fields, and a payload whose length is a `uint64_t` with its headers.
pub record IsTx (tx : Eip1559Tx) : Type 0 where
  pub chain_id : IsU64 tx.chain_id
  pub nonce : IsU64 tx.nonce
  pub max_priority_fee_per_gas : IsU64 tx.max_priority_fee_per_gas
  pub max_fee_per_gas : IsU64 tx.max_fee_per_gas
  pub gas_limit : IsU64 tx.gas_limit
  pub to : length tx.to ≡ 20
  pub value : IsU64 tx.value
  pub size : length tx.call_data < 2 ^ 63

-- The fields as EIP-1559 lists them.
unfoldable pub tx_items : Eip1559Tx → List Item
tx_items tx =
    str (min_be tx.chain_id)
    ∷ str (min_be tx.nonce)
    ∷ str (min_be tx.max_priority_fee_per_gas)
    ∷ str (min_be tx.max_fee_per_gas)
    ∷ str (min_be tx.gas_limit)
    ∷ str tx.to
    ∷ str (min_be tx.value)
    ∷ str tx.call_data
    ∷ nested []
    ∷ []

pub unsigned_items-Encodes :
    (tx : Eip1559Tx) → IsTx tx → EncodesAll (tx_items tx) (unsigned_items tx)
unfolding unsigned_items tx_items
unsigned_items-Encodes tx h = (
  encode_uint-Encodes _,
  (
    encode_uint-Encodes _,
    (
      encode_uint-Encodes _,
      (
        encode_uint-Encodes _,
        (
          encode_uint-Encodes _,
          (
            encode_bytes-Encodes tx.to (let n = h.to in omega arith),
            (
              encode_uint-Encodes _,
              (
                encode_bytes-Encodes tx.call_data (let n = h.size in omega arith),
                (unfold concat in encode_list-Encodes [] (omega arith), tt),
              ),
            ),
          ),
        ),
      ),
    ),
  ),
)

-- Nine headers and the fixed fields take little room beside the call data.
pub length-unsigned_items-le :
    (tx : Eip1559Tx) → IsTx tx → length (concat (unsigned_items tx)) ≤ length tx.call_data + 200
unfolding unsigned_items concat
length-unsigned_items-le tx h = omega (
  arith,
  length-append {0},
  length-encode_uint-le,
  length-encode_bytes-le tx.to,
  length-encode_bytes-le tx.call_data,
  length-encode_list-le [],
  h.to,
)

-- Type 2, then one list: its items.
unfoldable pub decode_tx : Bytes → Option (List Item)
decode_tx [] = none
decode_tx (kind ∷ body) = elim (decode_item body) [
  | some (nested payload, []) ↦ if kind == 2 then decode_items payload else none
  | _ ↦ none
]

-- The envelope of encoded items.
pub decode_tx-encode_list :
    (its : List Item) (items : List Bytes)
    → EncodesAll its items
    → IsU64 (length (concat items))
    → decode_tx (0x02 ∷ encode_list items) ≡ some its
unfolding decode_tx
decode_tx-encode_list its items all fits =
    let whole : decode_item (encode_list items) ≡ some (nested (concat items), []) =
      rw append-nil at (decode_item-encode_list items [] fits) in
    rw (whole, decode_tx) (decode_items-concat its items all)

-- The unsigned bytes are a type-2 envelope of the nine fields, and no more.
pub decode_tx-encode_unsigned :
    (tx : Eip1559Tx) → IsTx tx → decode_tx (encode_unsigned tx) ≡ some (tx_items tx)
unfolding encode_unsigned
decode_tx-encode_unsigned tx h =
    decode_tx-encode_list (tx_items tx) (unsigned_items tx) (unsigned_items-Encodes tx h)
      (let n = h.size in omega (arith, length-unsigned_items-le tx h))

abbrev payload_of : Item → Bytes
payload_of (str b) = b
payload_of (nested b) = b

abbrev field_at : ℕ → List Item → Bytes
field_at i its = payload_of (get_or its i (str []))

min_be-injective : (v w : ℕ) → IsU64 v → IsU64 w → min_be v ≡ min_be w → v ≡ w
min_be-injective v w hv hw e = sym (be_value-min_be v hv) ∙ ap be_value e ∙ be_value-min_be w hw

tx_items-injective : (t u : Eip1559Tx) → IsTx t → IsTx u → tx_items t ≡ tx_items u → t ≡ u
unfolding tx_items
tx_items-injective t u ht hu e = λ i. record {
  chain_id = min_be-injective _ _ ht.chain_id hu.chain_id (ap (field_at 0) e) i;
  nonce = min_be-injective _ _ ht.nonce hu.nonce (ap (field_at 1) e) i;
  max_priority_fee_per_gas =
      min_be-injective _ _ ht.max_priority_fee_per_gas hu.max_priority_fee_per_gas
        (ap (field_at 2) e) i;
  max_fee_per_gas =
      min_be-injective _ _ ht.max_fee_per_gas hu.max_fee_per_gas (ap (field_at 3) e) i;
  gas_limit = min_be-injective _ _ ht.gas_limit hu.gas_limit (ap (field_at 4) e) i;
  to = ap (field_at 5) e i;
  value = min_be-injective _ _ ht.value hu.value (ap (field_at 6) e) i;
  call_data = ap (field_at 7) e i;
}

-- Two transactions whose fields have the widths of their types, with call data below 2 ^ 63 bytes,
-- and whose bytes to sign are the same, are the same transaction.
pub encode_unsigned-injective :
    (t u : Eip1559Tx) → IsTx t → IsTx u → encode_unsigned t ≡ encode_unsigned u → t ≡ u
encode_unsigned-injective t u ht hu e = tx_items-injective t u ht hu (
    some-injective _ _
      (sym (decode_tx-encode_unsigned t ht) ∙ ap decode_tx e ∙ decode_tx-encode_unsigned u hu))
