-- ===== src/Chain/Eip1559.antt =====
-- cpp/src/pmm/chain/eip1559.cpp: type-2 transactions, unsigned and signed.
pub mod Unsigned
pub mod Signed
use polymarket_live_maker.Prelude.{
  Bool, Bytes, List, Option, [], drop, get_or, if◌then◌else◌, none, some, suc, take, true, zero, ℕ,
  ◌%◌, ◌&&◌, ◌++◌, ◌+◌, ◌-◌, ◌==◌, ◌>>=◌, ◌∷◌,
}
use polymarket_live_maker.Crypto.Keccak.{keccak256}
use polymarket_live_maker.Crypto.Signer.{Secp, sign_digest, recover_address, derive_address}
use polymarket_live_maker.Chain.Rlp.{encode_bytes, encode_uint, encode_uint_be, encode_list}

pub record Eip1559Tx : Type 0 where
  pub chain_id : ℕ
  pub nonce : ℕ
  pub max_priority_fee_per_gas : ℕ
  pub max_fee_per_gas : ℕ
  pub gas_limit : ℕ
  pub to : Bytes
  pub value : ℕ
  pub call_data : Bytes

pub record SignedTx : Type 0 where
  pub raw : Bytes
  pub tx_hash : Bytes
  pub y_parity : ℕ

-- The nine unsigned fields in their order; the access list is empty.
unfoldable pub unsigned_items : Eip1559Tx → List Bytes
unsigned_items tx =
    encode_uint tx.chain_id
    ∷ encode_uint tx.nonce
    ∷ encode_uint tx.max_priority_fee_per_gas
    ∷ encode_uint tx.max_fee_per_gas
    ∷ encode_uint tx.gas_limit
    ∷ encode_bytes tx.to
    ∷ encode_uint tx.value
    ∷ encode_bytes tx.call_data
    ∷ encode_list []
    ∷ []

unfoldable pub encode_unsigned : Eip1559Tx → Bytes
unfolding unsigned_items
encode_unsigned tx = 0x02 ∷ encode_list (unsigned_items tx)

unfoldable pub signing_hash : Eip1559Tx → Bytes
signing_hash tx = keccak256 (encode_unsigned tx)

-- `memcmp(a, b, 20) == 0`.
unfoldable pub same_bytes : ℕ → Bytes → Bytes → Bool
same_bytes zero a b = true
same_bytes (suc n) a b = get_or a 0 0 == get_or b 0 0 && same_bytes n (drop 1 a) (drop 1 b)

-- `sig[64] - 27` in `uint8_t`.
unfoldable pub y_parity_of : Bytes → ℕ
y_parity_of sig = (get_or sig 64 0 + 256 - 27) % 256

unfoldable pub raw_tx : Eip1559Tx → Bytes → Bytes
unfolding unsigned_items y_parity_of
raw_tx tx sig =
    0x02
    ∷ encode_list (
        unsigned_items tx
        ++ (encode_uint (y_parity_of sig)
            ∷ encode_uint_be (take 32 sig)
            ∷ encode_uint_be (take 32 (drop 32 sig))
            ∷ []))

unfoldable pub signed : Eip1559Tx → Bytes → SignedTx
unfolding raw_tx
signed tx sig = record {
  raw = raw_tx tx sig;
  tx_hash = keccak256 (raw_tx tx sig);
  y_parity = y_parity_of sig;
}

-- `none` stands for `return false`, where `out` is left as it was.
unfoldable pub sign_tx : Secp → Eip1559Tx → Bytes → Option SignedTx
unfolding signed
sign_tx c tx private_key = do
  let digest = signing_hash tx
  sig ← sign_digest c digest private_key
  recovered ← recover_address c digest sig
  derived ← derive_address c private_key
  if same_bytes 20 recovered derived then some (signed tx sig) else none
