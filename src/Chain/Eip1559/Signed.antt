-- ===== src/Chain/Eip1559/Signed.antt =====
-- Signing: when it succeeds, and what a signed transaction holds.
use polymarket_live_maker.Prelude.{
  Bytes, IsU64, List, Option-cases, [], ap, arith, concat, concat-append, drop, inl, inr, length,
  length-append, length-take, refl, some, suc, take, true, zero, ℕ, ◌++◌, ◌∷◌, ◌≡◌, ◌≤◌,
}
use polymarket_live_maker.Crypto.Signer.{
  Secp, IsSecp, sign_digest, recover_address, derive_address, recover_address-sign_digest,
}
use polymarket_live_maker.Chain.Rlp.{min_be, strip_zeros, encode_uint, encode_uint_be}
use polymarket_live_maker.Chain.Rlp.Decode.{Item, str}
use polymarket_live_maker.Chain.Rlp.Numbers.{length-strip_zeros-le}
use polymarket_live_maker.Chain.Rlp.RoundTrip.{
  EncodesAll, encode_bytes-Encodes, encode_uint-Encodes, length-encode_uint-le,
  length-encode_bytes-le,
}
use polymarket_live_maker.Chain.Eip1559.{
  Eip1559Tx, SignedTx, unsigned_items, signing_hash, same_bytes, y_parity_of, raw_tx, signed,
  sign_tx,
}
use polymarket_live_maker.Chain.Eip1559.Unsigned.{
  decode_tx-encode_list, IsTx, tx_items, decode_tx, unsigned_items-Encodes,
  length-unsigned_items-le,
}

same_bytes_refl : (n : ℕ) (a : Bytes) → same_bytes n a a ≡ true
unfolding same_bytes
same_bytes_refl zero a = refl
same_bytes_refl (suc n) a = ground (arith, same_bytes_refl n (drop 1 a))

-- The fields of a signed transaction: the nine, then the parity and the two halves of the signature
-- as numbers without leading zeros.
unfoldable pub signed_items : Eip1559Tx → Bytes → List Item
signed_items tx sig =
    tx_items tx
    ++ (str (min_be (y_parity_of sig))
        ∷ str (strip_zeros (take 32 sig))
        ∷ str (strip_zeros (take 32 (drop 32 sig)))
        ∷ [])

EncodesAll-append :
    (xs ys : List Item) (es fs : List Bytes)
    → EncodesAll xs es
    → EncodesAll ys fs
    → EncodesAll (xs ++ ys) (es ++ fs)
EncodesAll-append [] ys [] fs h k = k
EncodesAll-append [] ys (e ∷ es) fs h k = elim h [ ]
EncodesAll-append (x ∷ xs) ys [] fs h k = elim h [ ]
EncodesAll-append (x ∷ xs) ys (e ∷ es) fs (h, hs) k = (h, EncodesAll-append xs ys es fs hs k)

module _ (tx : Eip1559Tx) (h : IsTx tx) (sig : Bytes) where
  r : Bytes
  r = take 32 sig

  s : Bytes
  s = take 32 (drop 32 sig)

  signature_items : List Bytes
  signature_items = encode_uint (y_parity_of sig) ∷ encode_uint_be r ∷ encode_uint_be s ∷ []

  short_r : length (strip_zeros r) ≤ 32
  unfolding r
  short_r = omega (arith, length-strip_zeros-le (take 32 sig), length-take 32 sig)

  short_s : length (strip_zeros s) ≤ 32
  unfolding s
  short_s =
      omega (arith, length-strip_zeros-le (take 32 (drop 32 sig)), length-take 32 (drop 32 sig))

  signature_Encodes :
      EncodesAll
        (str (min_be (y_parity_of sig)) ∷ str (strip_zeros r) ∷ str (strip_zeros s) ∷ [])
        signature_items
  unfolding signature_items encode_uint_be
  signature_Encodes = (
    encode_uint-Encodes _,
    (
      encode_bytes-Encodes (strip_zeros r) (omega (arith, short_r)),
      (encode_bytes-Encodes (strip_zeros s) (omega (arith, short_s)), tt),
    ),
  )

  signature_items-le : length (concat signature_items) ≤ 200
  unfolding signature_items encode_uint_be concat
  signature_items-le = omega (
    arith,
    length-append {0},
    length-encode_uint-le,
    length-encode_bytes-le (strip_zeros r),
    length-encode_bytes-le (strip_zeros s),
    short_r,
    short_s,
  )

  -- The raw form of a transaction whose fields have the widths of their types, whatever the
  -- signature bytes, is decoded as a type-2 envelope of its nine fields, the parity, r and s
  -- without their leading zeros, and nothing more.
  pub decode_tx-raw_tx : decode_tx (raw_tx tx sig) ≡ some (signed_items tx sig)
  unfolding raw_tx signature_items signed_items r s
  decode_tx-raw_tx =
      let items : List Bytes = unsigned_items tx ++ signature_items in
      let fits : IsU64 (length (concat items)) =
        let n = h.size in
        omega (
          arith,
          length-unsigned_items-le tx h,
          signature_items-le,
          length-append (concat (unsigned_items tx)) (concat signature_items),
          ap length (concat-append (unsigned_items tx) signature_items),
        ) in
      decode_tx-encode_list (signed_items tx sig) items
        (EncodesAll-append _ _ _ _ (unsigned_items-Encodes tx h) signature_Encodes) fits

module _ (c : Secp) (tx : Eip1559Tx) (private_key : Bytes) where
  -- A transaction comes out only if the address recovered from the signature is, in all its twenty
  -- bytes, the one derived from the key; it is then the one that belongs to that signature.
  pub sign_tx_sound :
      (out : SignedTx)
      → sign_tx c tx private_key ≡ some out
      → (sig recovered derived : Bytes) × (sign_digest c (signing_hash tx) private_key ≡ some sig)
        × (recover_address c (signing_hash tx) sig ≡ some recovered)
        × (derive_address c private_key ≡ some derived)
        × (same_bytes 20 recovered derived ≡ true)
        × (out ≡ signed tx sig)
  unfolding sign_tx
  sign_tx_sound out e = elim (Option-cases (sign_digest c (signing_hash tx) private_key)) [
    | inl z ↦ ground arith
    | inr (sig, es) ↦ elim (Option-cases (recover_address c (signing_hash tx) sig)) [
      | inl z ↦ ground arith
      | inr (recovered, er) ↦ elim (Option-cases (derive_address c private_key)) [
        | inl z ↦ ground arith
        | inr (derived, ed) ↦ (sig, recovered, derived, es, er, ed, ground arith, ground arith)
      ]
    ]
  ]

  -- With a curve library that keeps its documented laws, a digest that can be signed gives the
  -- signed transaction: the recovery self-check never refuses it.
  pub sign_tx_total :
      IsSecp c
      → (sig : Bytes) → sign_digest c (signing_hash tx) private_key ≡ some sig
      → sign_tx c tx private_key ≡ some (signed tx sig)
  unfolding sign_tx
  sign_tx_total laws sig e =
      let (a, er, ed) = recover_address-sign_digest c laws (signing_hash tx) private_key sig e in
      rw (e, er, ed, same_bytes_refl 20 a)
