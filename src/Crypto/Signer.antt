-- ===== src/Crypto/Signer.antt =====
-- cpp/src/pmm/crypto/secp256k1_signer.cpp: signatures of 65 bytes and the addresses behind them.
-- libsecp256k1 is a parameter. Each call makes a context of its own; a context that cannot be made
-- is one more way in which the operation gives `none`.
use polymarket_live_maker.Prelude.{
  Bytes, Option, Option-cases, [], arith, drop, get_or, get_or-append, if◌then◌else◌, inl, inr,
  length, ltb, none, some, take, take-append, take_all, ℕ, ◌%◌, ◌++◌, ◌+◌, ◌-◌, ◌||◌, ◌∷◌, ◌≡◌, ◌≤◌,
}
use mathlib.Core.Option
use polymarket_live_maker.Crypto.Keccak.{keccak256}

pub record Secp : Type 0 where
  -- secp256k1_ecdsa_sign_recoverable, serialised compact: digest, key ↦ 64 bytes, recovery id.
  pub sign : Bytes → Bytes → Option (Bytes × ℕ)
  -- parse_compact and secp256k1_ecdsa_recover: digest, 64 bytes, recovery id ↦ public key.
  pub recover : Bytes → Bytes → ℕ → Option Bytes
  -- secp256k1_ec_pubkey_create, serialised uncompressed: key ↦ 65 bytes.
  pub create : Bytes → Option Bytes

-- What the library documents: a signature has 64 bytes and a recovery id of at most 3, and the key
-- recovered from it is the one that belongs to the secret key.
pub record IsSecp (c : Secp) : Type 0 where
  pub signature :
      (digest key sig : Bytes) (recid : ℕ)
      → c.sign digest key ≡ some (sig, recid)
      → (length sig ≡ 64) × (recid ≤ 3)
  pub recovers :
      (digest key sig : Bytes) (recid : ℕ)
      → c.sign digest key ≡ some (sig, recid)
      → (pub65 : Bytes) × (c.create key ≡ some pub65) × (c.recover digest sig recid ≡ some pub65)

-- The hash of the key without its first byte, from the twelfth byte on.
unfoldable pub pubkey_to_address : Bytes → Bytes
pubkey_to_address pub65 = drop 12 (keccak256 (take 64 (drop 1 pub65)))

module _ (c : Secp) where
  unfoldable pub sign_digest : Bytes → Bytes → Option Bytes
  sign_digest digest key =
      Option.map (λ (s : Bytes × ℕ). take 64 s.0 ++ ((s.1 + 27) % 256 ∷ [])) (c.sign digest key)

  -- `recid < 0 || recid > 3` for `recid = sig[64] - 27`.
  unfoldable pub recover_address : Bytes → Bytes → Option Bytes
  recover_address digest sig =
      let v = get_or sig 64 0 in
      if ltb v 27 || ltb 3 (v - 27)
      then none
      else Option.map pubkey_to_address (c.recover digest (take 64 sig) (v - 27))

  unfoldable pub derive_address : Bytes → Option Bytes
  derive_address key = Option.map pubkey_to_address (c.create key)

  sign_digest_parts :
      (digest key sig : Bytes)
      → sign_digest digest key ≡ some sig
      → (compact : Bytes) × (recid : ℕ) × (c.sign digest key ≡ some (compact, recid))
        × (sig ≡ take 64 compact ++ ((recid + 27) % 256 ∷ []))
  unfolding sign_digest
  sign_digest_parts digest key sig e = elim (Option-cases (c.sign digest key)) [
    | inl z ↦ ground arith
    | inr ((compact, recid), s) ↦ (compact, recid, s, ground arith)
  ]

  recover_address_parts :
      (digest compact pub65 : Bytes) (recid : ℕ)
      → length compact ≡ 64
      → recid ≤ 3
      → c.recover digest compact recid ≡ some pub65
      → recover_address digest (take 64 compact ++ ((recid + 27) % 256 ∷ []))
        ≡ some (pubkey_to_address pub65)
  unfolding recover_address
  recover_address_parts digest compact pub65 recid len small back =
      let v : ℕ = (recid + 27) % 256 in
      let back' : c.recover digest compact (v - 27) ≡ some pub65 =
        let same : recid ≡ v - 27 = omega arith in rw same at back in
      rw
        (
          take_all 64 compact len,
          get_or-append compact v 0 64 len,
          take-append 64 compact (v ∷ []) len,
          back',
        )
        (ground arith)

  -- With a curve library that keeps its documented laws, the address recovered from a signature
  -- made by SignDigest is the one derived from the key, and both are found.
  pub recover_address-sign_digest :
      IsSecp c
      → (digest key sig : Bytes) → sign_digest digest key ≡ some sig
      → (a : Bytes) × (recover_address digest sig ≡ some a) × (derive_address key ≡ some a)
  unfolding recover_address derive_address
  recover_address-sign_digest laws digest key sig e =
      let (compact, recid, s, shape) = sign_digest_parts digest key sig e in
      let (len, small) = laws.signature digest key compact recid s in
      let (pub65, made, back) = laws.recovers digest key compact recid s in
      (
        pubkey_to_address pub65,
        rw shape (recover_address_parts digest compact pub65 recid len small back),
        rw made,
      )
