-- ===== src/Wire/Auth.antt =====
-- ComputeL2Signature and ComputeClobAuthDigest of cpp/src/pmm/wire/clob_wire.cpp. HMAC-SHA256 of
-- OpenSSL is a parameter.
use polymarket_live_maker.Prelude.{
  Bytes, IsBytes, [], ap, codes, concat, none, some, take, ℕ, ◌++◌, ◌∙◌, ◌∷◌, ◌≡◌,
}
use polymarket_live_maker.Crypto.Keccak.{keccak256}
use polymarket_live_maker.Crypto.Words.{zero32, u256_from_u64}
use polymarket_live_maker.Crypto.Hex.{address_from_hex}
use polymarket_live_maker.Crypto.Eip712.{digest_preimage}
use polymarket_live_maker.Wire.Base64.{base64url_encode, base64url_decode, base64url_decode-encode}

-- `Addr32`: 32 zeros if the text is no address.
unfoldable pub wire_addr32 : Bytes → Bytes
wire_addr32 address_lc = elim (address_from_hex address_lc) [
  | none ↦ zero32
  | some a ↦ take 12 zero32 ++ a
]

unfoldable pub clob_auth_domain : Bytes
clob_auth_domain = concat (
    keccak256 (codes "EIP712Domain(string name,string version,uint256 chainId)")
    ∷ keccak256 (codes "ClobAuthDomain")
    ∷ keccak256 (codes "1")
    ∷ u256_from_u64 137
    ∷ [])

unfoldable pub clob_auth_struct : Bytes → Bytes → ℕ → Bytes
clob_auth_struct address_lc timestamp nonce = concat (
    keccak256 (codes "ClobAuth(address address,string timestamp,uint256 nonce,string message)")
    ∷ wire_addr32 address_lc
    ∷ keccak256 timestamp
    ∷ u256_from_u64 nonce
    ∷ keccak256 (codes "This message attests that I control the given wallet")
    ∷ [])

unfoldable pub compute_clob_auth_digest : Bytes → Bytes → ℕ → Bytes
unfolding clob_auth_domain clob_auth_struct
compute_clob_auth_digest address_lc timestamp nonce = keccak256 (
    digest_preimage (keccak256 clob_auth_domain)
      (keccak256 (clob_auth_struct address_lc timestamp nonce)))

-- `hmac`: key and message to the 32 bytes of the code.
module _ (hmac : Bytes → Bytes → Bytes) where
  unfoldable pub compute_l2_signature : Bytes → Bytes → Bytes → Bytes → Bytes → Bytes
  compute_l2_signature api_secret_b64url timestamp method path body =
      base64url_encode
        (hmac (base64url_decode api_secret_b64url) (timestamp ++ (method ++ (path ++ body))))

  -- For a secret that was given in its encoded form, the signature header decodes to the HMAC under
  -- the secret itself of the timestamp, the method, the path and the body; the HMAC gives bytes.
  pub decode-compute_l2_signature :
      ((key text : Bytes) → IsBytes (hmac key text))
      → (secret timestamp method path body : Bytes) → IsBytes secret
      → base64url_decode (compute_l2_signature (base64url_encode secret) timestamp method path body)
        ≡ hmac secret (timestamp ++ (method ++ (path ++ body)))
  unfolding compute_l2_signature
  decode-compute_l2_signature bytes secret timestamp method path body h =
      base64url_decode-encode _ (bytes _ _)
      ∙ ap (λ key. hmac key (timestamp ++ (method ++ (path ++ body))))
          (base64url_decode-encode secret h)
