-- ===== src/Clob/Flatten.antt =====
-- flatten of cpp/src/pmm/clob_submitter.cpp: up to six orders that take what the book has. The sleeps
-- between them are left out.
pub mod Bounds
pub mod Loop
use polymarket_live_maker.Prelude.{
  Bool, Bytes, Double, List, Option, StringSet, [], codes, erase, fmax, fmin, ge, gt, if◌then◌else◌,
  inl, inr, is_empty, length, lit, lt, ltb, neg, nil, none, put, same_str, some, suc, zero, ℕ, ◌++◌,
  ◌+◌, ◌∷◌, ◌⊎◌, ◌⊕◌, ◌⊖◌, ◌⊗◌,
}
use polymarket_live_maker.JsonUtil.{member, to_str}
use polymarket_live_maker.Maker.Bot.{to_upper}
use polymarket_live_maker.Clob.Amounts.{
  OrderAmounts, RoundConfig, round_config, get_market_order_amounts,
}
use polymarket_live_maker.Clob.Client.{
  Resp, Outside, ClobSubmitter, fetch_tick_size, fetch_neg_risk, fetch_marketable_price,
}
use polymarket_live_maker.Clob.Orders.{
  OrderError, Signed, make_order, sign_order, post_order, order_filled_shares,
}

-- The variables of the loop.
pub record Sweep (W : Type 0) : Type 0 where
  pub remaining : W
  pub total_filled : W
  pub last_order_id : Bytes
  pub last_http : ℕ
  pub last_resp : Bytes

-- The end: `flattened` is the status FLATTENED, the others are ERROR.
pub data Flattening (W : Type 0) : Type 0 where
  refused : OrderError → Flattening W
  flattened flatten_partial : Sweep W → Flattening W

abbrev pub max_attempts : ℕ
max_attempts = 6

abbrev pub fifo_bound : ℕ
fifo_bound = 500

-- The oldest id leaves both containers when the queue is over its bound.
unfoldable pub trim_own : StringSet → List Bytes → StringSet × List Bytes
trim_own ids [] = (ids, [])
trim_own ids (oldest ∷ fifo) =
    if ltb fifo_bound (length (oldest ∷ fifo))
    then (erase oldest ids, fifo)
    else (ids, oldest ∷ fifo)

unfoldable pub note_own : {W : Type 0} → Bytes → ClobSubmitter W → ClobSubmitter W
unfolding trim_own
note_own id s =
    let noted = trim_own (put id tt s.own_taker_ids) (s.own_taker_fifo ++ (id ∷ [])) in
    if is_empty id then s else record s { own_taker_ids = noted.0; own_taker_fifo = noted.1 }

module _ {J W : Type 0} ⦃d : Double W⦄ (o : Outside J W) where
  -- The price of an attempt, deeper from one to the next.
  unfoldable pub sweep_price : Bool → W → ℕ → W → W
  sweep_price is_buy tick attempt px =
      let sweep = fmin (lit 8 0) (lit 2 0 ⊗ lit attempt 0) ⊗ tick in
      if is_buy then fmin (lit 1 0 ⊖ tick) (px ⊕ sweep) else fmax tick (px ⊖ sweep)

  unfoldable pub sweep_amounts : Bool → W → W → RoundConfig → OrderAmounts
  sweep_amounts is_buy remaining px rc =
      get_market_order_amounts o.to_u64 is_buy (if is_buy then remaining ⊗ px else remaining) px rc

  -- What a reply changes, if it is JSON, and the shares that it reports.
  unfoldable pub sweep_reply : Bool → Resp → Sweep W → Option J → Sweep W × W
  unfolding order_filled_shares
  sweep_reply is_buy r v none = (record v { last_http = r.status; last_resp = r.body }, nil)
  sweep_reply is_buy r v (some j) =
      let id : Bytes = elim (member o.lib j (codes "orderID")) [
        | none ↦ v.last_order_id
        | some x ↦ to_str o.lib x
      ] in
      let made = order_filled_shares o j is_buy in
      (
        record v {
          remaining = if gt made nil then v.remaining ⊖ made else v.remaining;
          total_filled = if gt made nil then v.total_filled ⊕ made else v.total_filled;
          last_order_id = id;
          last_http = r.status;
          last_resp = r.body;
        },
        made,
      )

  unfoldable pub read_sweep : Bool → Resp → Sweep W → Sweep W × W
  unfolding sweep_reply
  read_sweep is_buy r v = sweep_reply is_buy r v (o.lib.parse r.body)

  module _ (token : Bytes) (is_buy neg_risk : Bool) (tick : W) (rc : RoundConfig) where
    -- One order at a price, and the variables after it.
    unfoldable pub sweep_once :
        OrderAmounts
        → OrderError ⊎ Signed
        → Sweep W
        → ClobSubmitter W
        → OrderError ⊎ (Sweep W × ClobSubmitter W)
    unfolding post_order read_sweep note_own
    sweep_once amt (inl e) v s = inl e
    sweep_once amt (inr signed) v s =
        let r = post_order o amt token is_buy (codes "FAK") signed s in
        let after = read_sweep is_buy r.0 v in
        inr (after.0, if gt after.1 nil then note_own after.0.last_order_id r.1 else r.1)

    -- An attempt: without a price nothing is sent.
    unfoldable pub sweep_attempt :
        ℕ → Sweep W → Option W × ClobSubmitter W → OrderError ⊎ (Sweep W × ClobSubmitter W)
    unfolding sweep_price sweep_amounts make_order sign_order sweep_once
    sweep_attempt attempt v (none, s) = inr (v, s)
    sweep_attempt attempt v (some mkt_px, s) =
        let px = sweep_price is_buy tick attempt mkt_px in
        let amt = sweep_amounts is_buy v.remaining px rc in
        let ord = make_order s.creds token amt (o.now_unix s.log) (o.random_word s.log) in
        sweep_once amt (sign_order o s.creds neg_risk ord) v s

    unfoldable pub price_now : ClobSubmitter W → Option W × ClobSubmitter W
    unfolding fetch_marketable_price
    price_now s = fetch_marketable_price o token (if is_buy then codes "BUY" else codes "SELL") s

    unfoldable pub finish_sweep : Sweep W → ClobSubmitter W → Flattening W × ClobSubmitter W
    finish_sweep v s = (if lt v.remaining (lit 1 0) then flattened v else flatten_partial v, s)

    -- What follows an attempt; an order that cannot be made ends the loop.
    unfoldable pub after_attempt :
        (Sweep W → ClobSubmitter W → Flattening W × ClobSubmitter W)
        → ClobSubmitter W
        → OrderError ⊎ (Sweep W × ClobSubmitter W)
        → Flattening W × ClobSubmitter W
    after_attempt more s (inl e) = (refused e, s)
    after_attempt more s (inr (v, after)) = more v after

    -- The rounds that are left, and the number of the attempt.
    unfoldable pub sweep_loop : ℕ → ℕ → Sweep W → ClobSubmitter W → Flattening W × ClobSubmitter W
    unfolding sweep_attempt price_now finish_sweep after_attempt
    sweep_loop zero attempt v s = finish_sweep v s
    sweep_loop (suc rounds) attempt v s =
        let more =
          after_attempt (sweep_loop rounds (attempt + 1)) (price_now s).1
            (sweep_attempt attempt v (price_now s)) in
        if ge v.remaining (lit 1 0) then more else finish_sweep v s

  unfoldable pub flatten : Bytes → Bytes → W → ClobSubmitter W → Flattening W × ClobSubmitter W
  unfolding fetch_tick_size fetch_neg_risk sweep_loop
  flatten token side size s =
      let tick = fetch_tick_size o token s in
      let neg = fetch_neg_risk o token tick.1 in
      let is_buy = same_str (to_upper side) (codes "BUY") in
      let tick_d : W = elim (o.lib.stod tick.0) [ none ↦ lit 1 2 | some x ↦ x ] in
      sweep_loop token is_buy neg.0 tick_d (round_config tick.0) max_attempts 1
        (record {
          remaining = size;
          total_filled = nil;
          last_order_id = [];
          last_http = 0;
          last_resp = [];
        })
        neg.1
