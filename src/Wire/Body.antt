-- ===== src/Wire/Body.antt =====
-- OrderV2Wire and BuildOrderV2Body of cpp/include/pmm/wire/clob_wire.hpp and
-- cpp/src/pmm/wire/clob_wire.cpp: the JSON text of an order, as one byte string.
use polymarket_live_maker.Prelude.{
  Bool, Bytes, String, [], codes, concat, if◌then◌else◌, to_string, to_string_loop, ℕ, ◌++◌, ◌∷◌,
}

pub record OrderV2Wire : Type 0 where
  pub salt : ℕ
  pub maker : Bytes
  pub signer : Bytes
  pub token_id : Bytes
  pub maker_amount : ℕ
  pub taker_amount : ℕ
  pub is_buy : Bool
  pub signature_type : ℕ
  pub timestamp_ms : ℕ
  pub metadata_hex : Bytes
  pub builder_hex : Bytes
  pub signature : Bytes
  pub owner : Bytes
  pub order_type : Bytes

-- One member of an object, its value as text; and a text in quotes.
abbrev member : String → Bytes → Bytes
member name value = b'"' ∷ codes name ++ (b'"' ∷ b':' ∷ value)

abbrev quoted : Bytes → Bytes
quoted value = b'"' ∷ value ++ (b'"' ∷ [])

abbrev comma : Bytes
comma = b',' ∷ []

unfoldable pub build_order_v2_body : OrderV2Wire → Bytes
unfolding to_string_loop
build_order_v2_body o = concat (
    codes "{\"order\":{"
    ∷ member "salt" (to_string o.salt)
    ∷ comma
    ∷ member "maker" (quoted o.maker)
    ∷ comma
    ∷ member "signer" (quoted o.signer)
    ∷ comma
    ∷ member "tokenId" (quoted o.token_id)
    ∷ comma
    ∷ member "makerAmount" (quoted (to_string o.maker_amount))
    ∷ comma
    ∷ member "takerAmount" (quoted (to_string o.taker_amount))
    ∷ comma
    ∷ member "side" (quoted (if o.is_buy then codes "BUY" else codes "SELL"))
    ∷ comma
    ∷ member "expiration" (quoted (codes "0"))
    ∷ comma
    ∷ member "signatureType" (to_string o.signature_type)
    ∷ comma
    ∷ member "timestamp" (quoted (to_string o.timestamp_ms))
    ∷ comma
    ∷ member "metadata" (quoted o.metadata_hex)
    ∷ comma
    ∷ member "builder" (quoted o.builder_hex)
    ∷ comma
    ∷ member "signature" (quoted o.signature)
    ∷ codes "},"
    ∷ member "owner" (quoted o.owner)
    ∷ comma
    ∷ member "orderType" (quoted o.order_type)
    ∷ comma
    ∷ member "deferExec" (codes "false")
    ∷ comma
    ∷ member "postOnly" (codes "false")
    ∷ codes "}"
    ∷ [])
