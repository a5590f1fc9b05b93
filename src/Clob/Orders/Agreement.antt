-- ===== src/Clob/Orders/Agreement.antt =====
-- The wire form of an order and the signed order.
use polymarket_live_maker.Prelude.{
  Bool, Bytes, Double, IsU64, Option, ap, arith, be_from, be_value, drop, false, if◌then◌else◌, inr,
  inr-injective, none, refl, replicate, some, subst, true, ℕ, ℤ, ◌%◌, ◌/◌, ◌≡◌,
}
use polymarket_live_maker.Crypto.Words.{u256_from_u64, u256_from_decimal}
use polymarket_live_maker.Crypto.Hex.{address_from_hex, bytes32_from_hex}
use polymarket_live_maker.Crypto.Eip712.{OrderV2}
use polymarket_live_maker.Wire.Body.{OrderV2Wire}
use polymarket_live_maker.Clob.Amounts.{RoundConfig, OrderAmounts, get_order_amounts}
use polymarket_live_maker.Clob.Client.{LiveCredentials}
use polymarket_live_maker.Clob.Orders.{cast_bits, zero_hex, fill_order, wire_order}

-- The wire form and the signed order say the same.
pub record Agrees (w : OrderV2Wire) (ord : OrderV2) : Type 0 where
  pub salt : u256_from_u64 w.salt ≡ ord.salt
  pub maker : address_from_hex w.maker ≡ some ord.maker
  pub signer : address_from_hex w.signer ≡ some ord.signer
  pub token_id : u256_from_decimal w.token_id ≡ some ord.token_id
  pub maker_amount : w.maker_amount ≡ ord.maker_amount
  pub taker_amount : w.taker_amount ≡ ord.taker_amount
  pub side : ord.side ≡ (if w.is_buy then 0 else 1)
  pub signature_type : w.signature_type % 256 ≡ ord.signature_type
  pub timestamp_ms : w.timestamp_ms ≡ ord.timestamp_ms
  pub metadata : bytes32_from_hex w.metadata_hex ≡ some ord.metadata
  pub builder : bytes32_from_hex w.builder_hex ≡ some ord.builder

-- The low 64 bits of a salt are its value.
low_bytes : (v : ℕ) → IsU64 v → be_value (drop 24 (u256_from_u64 v)) ≡ v
unfolding u256_from_u64 be_from
low_bytes v h = omega arith

cast_bits_twice : (z : ℤ) → cast_bits 32 z % 256 ≡ cast_bits 8 z
cast_bits_twice (ℤ.pos n) = omega arith
cast_bits_twice (ℤ.negsuc n) = omega arith

zero_hex_lem : bytes32_from_hex zero_hex ≡ some (replicate 32 0)
unfolding bytes32_from_hex
zero_hex_lem = refl

pub fill_order-Agrees :
    (creds : LiveCredentials) (amt : OrderAmounts) (seconds word : ℕ) (is_buy : Bool)
    (token kind sig : Bytes) (m a t : Option Bytes) (ord : OrderV2)
    → IsU64 word
    → amt.side ≡ (if is_buy then 0 else 1)
    → address_from_hex creds.maker ≡ m
    → address_from_hex creds.signer_lc ≡ a
    → u256_from_decimal token ≡ t
    → fill_order creds amt seconds word m a t ≡ inr ord
    → Agrees (wire_order creds amt token is_buy kind (record { order = ord; signature = sig })) ord
unfolding fill_order wire_order
fill_order-Agrees creds amt seconds word is_buy token kind sig none a t ord u s hm ha ht h =
    absurd (grind arith)
fill_order-Agrees creds amt seconds word is_buy token kind sig (some m) none t ord u s hm ha ht h =
    absurd (grind arith)
fill_order-Agrees creds amt seconds word is_buy token kind sig (some m) (some a) none ord u s hm ha
      ht h =
    absurd (grind arith)
fill_order-Agrees creds amt seconds word is_buy token kind sig (some m) (some a) (some t) ord u s hm
      ha ht h =
    let same = inr-injective _ ord h in
    subst
      (λ x.
        Agrees (wire_order creds amt token is_buy kind (record { order = x; signature = sig })) x)
      same
      (record {
        salt = ap u256_from_u64 (low_bytes (word / 2) (omega arith));
        maker = hm;
        signer = ha;
        token_id = ht;
        maker_amount = refl;
        taker_amount = refl;
        side = s;
        signature_type = cast_bits_twice creds.signature_type;
        timestamp_ms = refl;
        metadata = zero_hex_lem;
        builder = zero_hex_lem;
      })

-- The sides of the amounts.
pub get_order_amounts-side :
    {W : Type 0} ⦃d : Double W⦄ (to_u64 : W → ℕ) (is_buy : Bool) (size price : W) (rc : RoundConfig)
    → (get_order_amounts to_u64 is_buy size price rc).side ≡ (if is_buy then 0 else 1)
unfolding get_order_amounts
get_order_amounts-side to_u64 true size price rc = refl
get_order_amounts-side to_u64 false size price rc = refl
