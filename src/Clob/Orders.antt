-- ===== src/Clob/Orders.antt =====
-- place of cpp/src/pmm/clob_submitter.cpp, and what it shares with flatten: the order, its signature
-- and its wire form.
pub mod Agreement
pub mod Sent
use polymarket_live_maker.Prelude.{
  Bool, Bytes, Double, Option, [], be_value, codes, drop, false, if◌then◌else◌, inl, inr, is_empty,
  neg, nil, none, not, replicate, same_str, some, ℕ, ℤ, ◌%◌, ◌&&◌, ◌*◌, ◌-◌, ◌/◌, ◌^◌, ◌||◌, ◌⊎◌,
}
use polymarket_live_maker.JsonUtil.{member, member_str, to_str, to_double, py_bool}
use polymarket_live_maker.Crypto.Words.{u256_from_u64, u256_from_decimal}
use polymarket_live_maker.Crypto.Hex.{address_from_hex, to_hex}
use polymarket_live_maker.Crypto.Eip712.{OrderV2, ctf_exchange_v2_domain, compute_order_v2_digest}
use polymarket_live_maker.Crypto.Signer.{sign_digest, recover_address}
use polymarket_live_maker.Wire.Body.{OrderV2Wire, build_order_v2_body}
use polymarket_live_maker.Maker.Bot.{to_upper}
use polymarket_live_maker.Engine.Place.{lower_case}
use polymarket_live_maker.Clob.Amounts.{OrderAmounts, round_config, get_order_amounts}
use polymarket_live_maker.Clob.Client.{
  Resp, Outside, LiveCredentials, ClobSubmitter, is_2xx, signed_http, fetch_tick_size,
  fetch_neg_risk,
}

-- The `error` of a result that was made before the order was sent.
pub data OrderError : Type 0 where
  maker_addr signer_addr bad_token_id sign_failed self_check_failed : OrderError

-- A cast of an `int` to w bits.
abbrev pub cast_bits : ℕ → ℤ → ℕ
cast_bits w (ℤ.pos n) = n % 2 ^ w
cast_bits w (ℤ.negsuc n) = 2 ^ w - 1 - n % 2 ^ w

abbrev pub zero_hex : Bytes
zero_hex = codes "0x0000000000000000000000000000000000000000000000000000000000000000"

-- An order with its signature.
pub record Signed : Type 0 where
  pub order : OrderV2
  pub signature : Bytes

-- The reply to a placement. The members that repeat the arguments are left out.
pub record Placement (W : Type 0) : Type 0 where
  pub ok : Bool
  pub order_id : Bytes
  pub filled : W
  pub http : ℕ
  pub resp : Bytes

-- The two addresses and the token, where they could be read. `seconds` is the time, `word` the random
-- number: a salt below 2 ^ 63.
unfoldable pub fill_order :
    LiveCredentials
    → OrderAmounts
    → ℕ
    → ℕ
    → Option Bytes
    → Option Bytes
    → Option Bytes
    → OrderError ⊎ OrderV2
fill_order creds amt seconds word none signer token = inl maker_addr
fill_order creds amt seconds word (some maker) none token = inl signer_addr
fill_order creds amt seconds word (some maker) (some signer) none = inl bad_token_id
fill_order creds amt seconds word (some maker) (some signer) (some token) = inr (record {
  salt = u256_from_u64 (word / 2);
  maker = maker;
  signer = signer;
  token_id = token;
  maker_amount = amt.maker_amount;
  taker_amount = amt.taker_amount;
  side = amt.side;
  signature_type = cast_bits 8 creds.signature_type;
  timestamp_ms = seconds * 1000 % 2 ^ 64;
  metadata = replicate 32 0;
  builder = replicate 32 0;
})

unfoldable pub make_order : LiveCredentials → Bytes → OrderAmounts → ℕ → ℕ → OrderError ⊎ OrderV2
unfolding fill_order
make_order creds token amt seconds word =
    fill_order creds amt seconds word (address_from_hex creds.maker)
      (address_from_hex creds.signer_lc) (u256_from_decimal token)

unfoldable pub wire_order :
    LiveCredentials → OrderAmounts → Bytes → Bool → Bytes → Signed → OrderV2Wire
wire_order creds amt token is_buy order_type s = record {
  salt = be_value (drop 24 s.order.salt);
  maker = creds.maker;
  signer = creds.signer_lc;
  token_id = token;
  maker_amount = amt.maker_amount;
  taker_amount = amt.taker_amount;
  is_buy = is_buy;
  signature_type = cast_bits 32 creds.signature_type;
  timestamp_ms = s.order.timestamp_ms;
  metadata_hex = zero_hex;
  builder_hex = zero_hex;
  signature = to_hex s.signature;
  owner = creds.api_key;
  order_type = order_type;
}

module _ {J W : Type 0} ⦃d : Double W⦄ (o : Outside J W) where
  unfoldable pub with_signature : OrderV2 → Option Bytes → OrderError ⊎ Signed
  with_signature ord none = inl sign_failed
  with_signature ord (some sig) = inr (record { order = ord; signature = sig })

  abbrev pub digest_of : Bool → OrderV2 → Bytes
  digest_of neg_risk ord = compute_order_v2_digest ord (ctf_exchange_v2_domain neg_risk)

  unfoldable pub sign_order : LiveCredentials → Bool → OrderError ⊎ OrderV2 → OrderError ⊎ Signed
  unfolding with_signature
  sign_order creds neg_risk (inl e) = inl e
  sign_order creds neg_risk (inr ord) =
      with_signature ord (sign_digest o.curve (digest_of neg_risk ord) creds.private_key)

  unfoldable pub checked : Signed → Option Bytes → OrderError ⊎ Signed
  checked s none = inl self_check_failed
  checked s (some a) = if same_str a s.order.signer then inr s else inl self_check_failed

  -- `RecoverAddress` and the comparison with the signer.
  unfoldable pub self_check : Bool → OrderError ⊎ Signed → OrderError ⊎ Signed
  unfolding checked
  self_check neg_risk (inl e) = inl e
  self_check neg_risk (inr s) =
      checked s (recover_address o.curve (digest_of neg_risk s.order) s.signature)

  -- `matched` and `delayed` count; the amount is a number or a numeral.
  unfoldable pub order_filled_shares : J → Bool → W
  order_filled_shares j is_buy =
      let st = lower_case (member_str o.lib j (codes "status")) in
      let amount : W =
        elim (member o.lib j (if is_buy then codes "takingAmount" else codes "makingAmount")) [
          | none ↦ nil
          | some v ↦ to_double o.lib v
        ] in
      if not (same_str st (codes "matched")) && not (same_str st (codes "delayed"))
      then nil
      else amount

  unfoldable pub post_order :
      OrderAmounts → Bytes → Bool → Bytes → Signed → ClobSubmitter W → Resp × ClobSubmitter W
  unfolding signed_http wire_order
  post_order amt token is_buy order_type signed s =
      signed_http o (codes "POST") (codes "/order") (codes "/order")
        (build_order_v2_body (wire_order s.creds amt token is_buy order_type signed)) s

  -- The reply, if it is JSON.
  unfoldable pub placement_of : Bool → Resp → Option J → Placement W
  unfolding order_filled_shares
  placement_of is_buy r none = record {
    ok = false;
    order_id = [];
    filled = nil;
    http = r.status;
    resp = r.body;
  }
  placement_of is_buy r (some j) =
      let order_id : Bytes = elim (member o.lib j (codes "orderID")) [
        | some v ↦ to_str o.lib v
        | none ↦ member_str o.lib j (codes "order_id")
      ] in
      let success : Bool = elim (member o.lib j (codes "success")) [
        | none ↦ false
        | some v ↦ py_bool o.lib v
      ] in
      let st = lower_case (member_str o.lib j (codes "status")) in
      record {
        ok =
            is_2xx r.status
            && ((success || not (is_empty order_id)) && not (same_str st (codes "unmatched")));
        order_id = order_id;
        filled = order_filled_shares j is_buy;
        http = r.status;
        resp = r.body;
      }

  unfoldable pub read_placement : Bool → Resp → Placement W
  unfolding placement_of
  read_placement is_buy r = placement_of is_buy r (o.lib.parse r.body)

  unfoldable pub order_type_of : Bytes → Bytes
  order_type_of t = if same_str t (codes "FAK") || same_str t (codes "FOK") then t else codes "GTC"

  unfoldable pub send_signed :
      OrderAmounts
      → Bytes
      → Bool
      → Bytes
      → OrderError ⊎ Signed
      → ClobSubmitter W
      → (OrderError ⊎ Placement W) × ClobSubmitter W
  unfolding post_order read_placement
  send_signed amt token is_buy order_type (inl e) s = (inl e, s)
  send_signed amt token is_buy order_type (inr signed) s =
      let r = post_order amt token is_buy order_type signed s in
      (inr (read_placement is_buy r.0), r.1)

  unfoldable pub place :
      Bytes → Bytes → W → W → Bytes → ClobSubmitter W → (OrderError ⊎ Placement W) × ClobSubmitter W
  unfolding fetch_tick_size fetch_neg_risk make_order sign_order self_check send_signed
      order_type_of
  place token side price size order_type s =
      let tick = fetch_tick_size o token s in
      let neg = fetch_neg_risk o token tick.1 in
      let is_buy = same_str (to_upper side) (codes "BUY") in
      let amt = get_order_amounts o.to_u64 is_buy size price (round_config tick.0) in
      let ord = make_order neg.1.creds token amt (o.now_unix neg.1.log) (o.random_word neg.1.log) in
      send_signed amt token is_buy (order_type_of order_type)
        (self_check neg.0 (sign_order neg.1.creds neg.0 ord)) neg.1
