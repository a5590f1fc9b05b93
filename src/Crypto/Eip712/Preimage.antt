-- ===== src/Crypto/Eip712/Preimage.antt =====
-- What is hashed tells every field of the order.
use polymarket_live_maker.Prelude.{
  All, Bytes, HasLength, IsByte, IsU64, List, [], ap, arith, concat-injective, drop, get_or, length,
  refl, ℕ, ◌∷◌, ◌≡◌,
}
use polymarket_live_maker.Crypto.Keccak.{keccak256, length-keccak256}
use polymarket_live_maker.Crypto.Words.Laws.{length-u256_from_u64, u256_from_u64-injective}
use polymarket_live_maker.Crypto.Eip712.{OrderV2, addr_to_32, order_type, order_words, order_struct}

-- The array types of the fields, and the ranges of the integers.
pub record IsOrder (o : OrderV2) : Type 0 where
  pub salt : length o.salt ≡ 32
  pub maker : length o.maker ≡ 20
  pub signer : length o.signer ≡ 20
  pub token_id : length o.token_id ≡ 32
  pub maker_amount : IsU64 o.maker_amount
  pub taker_amount : IsU64 o.taker_amount
  pub side : IsByte o.side
  pub signature_type : IsByte o.signature_type
  pub timestamp_ms : IsU64 o.timestamp_ms
  pub metadata : length o.metadata ≡ 32
  pub builder : length o.builder ≡ 32

pub length-addr_to_32 : (a : Bytes) → length a ≡ 20 → length (addr_to_32 a) ≡ 32
unfolding addr_to_32
length-addr_to_32 a h = omega arith

pub addr_to_32-injective : (a b : Bytes) → addr_to_32 a ≡ addr_to_32 b → a ≡ b
unfolding addr_to_32
addr_to_32-injective a b e = ap (drop 12) e

order_words_length : (o : OrderV2) → IsOrder o → All (HasLength 32) (order_words o)
unfolding order_words
order_words_length o h =
    omega (arith, length-addr_to_32 o.maker, length-addr_to_32 o.signer, length-u256_from_u64)

abbrev word_at : ℕ → List Bytes → Bytes
word_at i ws = get_or ws i []

order_words-injective :
    (o p : OrderV2) → IsOrder o → IsOrder p → order_words o ≡ order_words p → o ≡ p
unfolding order_words
order_words-injective o p ho hp e = λ i. record {
  salt = ap (word_at 0) e i;
  maker = addr_to_32-injective o.maker p.maker (ap (word_at 1) e) i;
  signer = addr_to_32-injective o.signer p.signer (ap (word_at 2) e) i;
  token_id = ap (word_at 3) e i;
  maker_amount = u256_from_u64-injective _ _ ho.maker_amount hp.maker_amount (ap (word_at 4) e) i;
  taker_amount = u256_from_u64-injective _ _ ho.taker_amount hp.taker_amount (ap (word_at 5) e) i;
  side = u256_from_u64-injective o.side p.side (omega arith) (omega arith) (ap (word_at 6) e) i;
  signature_type =
      u256_from_u64-injective o.signature_type p.signature_type (omega arith) (omega arith)
        (ap (word_at 7) e) i;
  timestamp_ms = u256_from_u64-injective _ _ ho.timestamp_ms hp.timestamp_ms (ap (word_at 8) e) i;
  metadata = ap (word_at 9) e i;
  builder = ap (word_at 10) e i;
}

-- Two orders whose fields have the widths of their types, with the same struct encoding, are the
-- same order: no two fields run together.
pub order_struct-injective :
    (o p : OrderV2) → IsOrder o → IsOrder p → order_struct o ≡ order_struct p → o ≡ p
unfolding order_struct
order_struct-injective o p ho hp e =
    let parts =
      concat-injective 32 (keccak256 order_type ∷ order_words o)
        (keccak256 order_type ∷ order_words p)
        (length-keccak256 order_type, order_words_length o ho)
        (length-keccak256 order_type, order_words_length p hp) (unfold order_words in refl) e in
    order_words-injective o p ho hp (ap (drop 1) parts)
