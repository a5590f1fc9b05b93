-- ===== src/Crypto/Eip712.antt =====
-- EIP-712 digests: CtfExchangeV2Domain and ComputeOrderV2Digest of
-- cpp/src/pmm/crypto/eip712_v2.cpp. The `memcpy`s of 32 bytes each at 32 * 0, 32 * 1, … are a
-- concatenation.
pub mod Preimage
use polymarket_live_maker.Prelude.{
  Bool, Bytes, List, Option, [], codes, concat, if◌then◌else◌, none, replicate, some, ℕ, ◌++◌, ◌∷◌,
}
use polymarket_live_maker.Crypto.Keccak.{keccak256}
use polymarket_live_maker.Crypto.Words.{u256_from_u64}
use polymarket_live_maker.Crypto.Hex.{address_from_hex}

pub record Eip712Domain : Type 0 where
  pub name : Bytes
  pub version : Bytes
  pub chain_id : ℕ
  pub verifying_contract : Bytes

pub record OrderV2 : Type 0 where
  pub salt : Bytes
  pub maker : Bytes
  pub signer : Bytes
  pub token_id : Bytes
  pub maker_amount : ℕ
  pub taker_amount : ℕ
  pub side : ℕ
  pub signature_type : ℕ
  pub timestamp_ms : ℕ
  pub metadata : Bytes
  pub builder : Bytes

-- AddrTo32: twelve zeros, then the twenty bytes of the address.
unfoldable pub addr_to_32 : Bytes → Bytes
addr_to_32 a = replicate 12 0 ++ a

-- `(void)AddressFromHex(…, d.verifying_contract)`: the address stays zero if it is not read.
or_zero_address : Option Bytes → Bytes
or_zero_address none = replicate 20 0
or_zero_address (some a) = a

unfoldable pub ctf_exchange_v2_domain : Bool → Eip712Domain
unfolding or_zero_address address_from_hex
ctf_exchange_v2_domain neg_risk = record {
  name = codes "Polymarket CTF Exchange";
  version = codes "2";
  chain_id = 137;
  verifying_contract = or_zero_address (
      address_from_hex (
        if neg_risk
        then codes "0xe2222d279d744050d28e00520010520000310F59"
        else codes "0xE111180000d2663C0091e4f400237545B87B996B"));
}

abbrev pub order_type : Bytes
order_type =
    codes "Order(uint256 salt,address maker,address signer,uint256 tokenId,uint256 makerAmount,"
    ++ (codes "uint256 takerAmount,uint8 side,uint8 signatureType,uint256 timestamp,"
        ++ codes "bytes32 metadata,bytes32 builder)")

-- The fields in the order of `sbuf`, behind the hash of the type.
unfoldable pub order_words : OrderV2 → List Bytes
order_words o =
    o.salt
    ∷ addr_to_32 o.maker
    ∷ addr_to_32 o.signer
    ∷ o.token_id
    ∷ u256_from_u64 o.maker_amount
    ∷ u256_from_u64 o.taker_amount
    ∷ u256_from_u64 o.side
    ∷ u256_from_u64 o.signature_type
    ∷ u256_from_u64 o.timestamp_ms
    ∷ o.metadata
    ∷ o.builder
    ∷ []

unfoldable pub order_struct : OrderV2 → Bytes
order_struct o = concat (keccak256 order_type ∷ order_words o)

abbrev pub domain_type : Bytes
domain_type =
    codes "EIP712Domain(string name,string version,uint256 chainId,address verifyingContract)"

unfoldable pub domain_struct : Eip712Domain → Bytes
domain_struct d = concat (
    keccak256 domain_type
    ∷ keccak256 d.name
    ∷ keccak256 d.version
    ∷ u256_from_u64 d.chain_id
    ∷ addr_to_32 d.verifying_contract
    ∷ [])

-- `pre`: 0x19 0x01, the domain separator, the hash of the struct.
unfoldable pub digest_preimage : Bytes → Bytes → Bytes
digest_preimage domain_sep struct_hash = 0x19 ∷ 0x01 ∷ domain_sep ++ struct_hash

unfoldable pub compute_order_v2_digest : OrderV2 → Eip712Domain → Bytes
unfolding order_struct domain_struct digest_preimage
compute_order_v2_digest o d =
    keccak256 (digest_preimage (keccak256 (domain_struct d)) (keccak256 (order_struct o)))
