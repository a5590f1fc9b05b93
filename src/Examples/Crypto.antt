-- ===== src/Examples/Crypto.antt =====
-- The crypto modules at concrete inputs; the curve is replaced by a toy with its documented laws.
use polymarket_live_maker.Prelude.{
  All, Bytes, IsBytes, [], ap, arith, be_value, codes, length, length-append, length-take, refl,
  replicate, some, some-injective, sym, take, ℕ, ◌++◌, ◌∙◌, ◌∷◌, ◌≡◌, ◌≢◌, ◌≤◌,
}
use polymarket_live_maker.Crypto.Words.Decimal.{
  IsDigit, digits_value, u256_from_decimal_sound, u256_from_decimal_total,
}
use polymarket_live_maker.Crypto.Words.{u256_from_decimal, u256_from_u64}
use polymarket_live_maker.Crypto.Words.Laws.{length-u256_from_u64}
use polymarket_live_maker.Crypto.Hex.{hex_to_bytes, to_hex, hex_to_bytes-to_hex}
use polymarket_live_maker.Crypto.Eip712.{OrderV2}
use polymarket_live_maker.Crypto.Eip712.Preimage.{IsOrder, order_struct-injective}
use polymarket_live_maker.Crypto.Signer.{
  Secp, IsSecp, sign_digest, recover_address, derive_address, recover_address-sign_digest,
}

-- A signature is the key itself, padded to 64 bytes, and so is the public key.
abbrev zeros : Bytes
zeros = replicate 64 0

abbrev word_of : ℕ → Bytes
word_of n = replicate 31 0 ++ (n ∷ [])

abbrev pub toy_pad : Bytes → Bytes
toy_pad key = take 64 (key ++ zeros)

abbrev pub toy_secp : Secp
toy_secp = record {
  sign = λ digest key. some (toy_pad key, 1);
  recover = λ digest sig recid. some (0x04 ∷ sig);
  create = λ key. some (0x04 ∷ toy_pad key);
}

length-zeros : length zeros ≡ 64
length-zeros = refl

length-toy_pad : (key : Bytes) → length (toy_pad key) ≡ 64
length-toy_pad key =
    omega (arith, length-take 64 (key ++ zeros), length-append key (zeros), length-zeros)

toy_signature :
    (digest key sig : Bytes) (recid : ℕ)
    → toy_secp.sign digest key ≡ some (sig, recid)
    → (length sig ≡ 64) × (recid ≤ 3)
toy_signature digest key sig recid e =
    let same : (toy_pad key, 1) ≡ (sig, recid) = some-injective _ _ e in
    (
      sym (ap (λ (p : Bytes × ℕ). length p.0) same) ∙ length-toy_pad key,
      (let r : 1 ≡ recid = ap (λ (p : Bytes × ℕ). p.1) same in omega (arith, r)),
    )

toy_recovers :
    (digest key sig : Bytes) (recid : ℕ)
    → toy_secp.sign digest key ≡ some (sig, recid)
    → (pub65 : Bytes) × (toy_secp.create key ≡ some pub65)
      × (toy_secp.recover digest sig recid ≡ some pub65)
toy_recovers digest key sig recid e =
    let same : (toy_pad key, 1) ≡ (sig, recid) = some-injective _ _ e in
    (0x04 ∷ toy_pad key, refl, sym (ap (λ (p : Bytes × ℕ). some (0x04 ∷ p.0)) same))

pub toy_secp-IsSecp : IsSecp toy_secp
toy_secp-IsSecp = record { signature = toy_signature; recovers = toy_recovers }

abbrev pub toy_key : Bytes
toy_key = 7 ∷ 1 ∷ []

abbrev pub toy_digest : Bytes
toy_digest = replicate 32 9

recover_address-sign_digest_example :
    (a : Bytes) × (recover_address toy_secp toy_digest (toy_pad toy_key ++ (28 ∷ [])) ≡ some a)
    × (derive_address toy_secp toy_key ≡ some a)
recover_address-sign_digest_example =
    recover_address-sign_digest toy_secp toy_secp-IsSecp toy_digest toy_key
      (toy_pad toy_key ++ (28 ∷ [])) (unfold sign_digest in refl)

abbrev twelve : Bytes
twelve = codes "0012"

u256_from_decimal_total_example :
    (r : Bytes) × (u256_from_decimal twelve ≡ some r) × (be_value r ≡ digits_value 0 twelve)
u256_from_decimal_total_example =
    u256_from_decimal_total twelve (λ e. cc) (omega arith) (unfold digits_value in omega arith)

u256_from_decimal_sound_example :
    (codes "7" ≢ [])
    × All IsDigit (codes "7")
    × (be_value (word_of 7) ≡ digits_value 0 (codes "7"))
    × (length (word_of 7) ≡ 32)
    × IsBytes (word_of 7)
u256_from_decimal_sound_example =
    u256_from_decimal_sound (codes "7") (word_of 7) (unfold u256_from_decimal in refl)

hex_to_bytes-to_hex_example : hex_to_bytes (to_hex (0xab ∷ 0x0c ∷ [])) 2 ≡ some (0xab ∷ 0x0c ∷ [])
hex_to_bytes-to_hex_example = hex_to_bytes-to_hex (0xab ∷ 0x0c ∷ []) (omega arith)

abbrev an_order : OrderV2
an_order = record {
  salt = u256_from_u64 5;
  maker = replicate 20 1;
  signer = replicate 20 2;
  token_id = replicate 32 3;
  maker_amount = 5000000;
  taker_amount = 10000000;
  side = 1;
  signature_type = 1;
  timestamp_ms = 1700000000000;
  metadata = replicate 32 0;
  builder = replicate 32 0;
}

an_order-IsOrder : IsOrder an_order
an_order-IsOrder = record {
  salt = length-u256_from_u64 5;
  maker = refl;
  signer = refl;
  token_id = refl;
  maker_amount = omega arith;
  taker_amount = omega arith;
  side = omega arith;
  signature_type = omega arith;
  timestamp_ms = omega arith;
  metadata = refl;
  builder = refl;
}

order_struct-injective_example : an_order ≡ an_order
order_struct-injective_example =
    order_struct-injective an_order an_order an_order-IsOrder an_order-IsOrder refl
