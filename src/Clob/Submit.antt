-- ===== src/Clob/Submit.antt =====
-- The other calls of cpp/src/pmm/clob_submitter.cpp: the cancels, the trades, the balance, and the
-- submitter that the bot and the engine call. Rows that are only printed are left out.
use polymarket_live_maker.Prelude.{
  Bytes, Double, List, Option, [], codes, if◌then◌else◌, inl, inr, is_empty, lit, none, same_str,
  some, to_string, ℤ, ◌++◌, ◌+◌, ◌>>=◌, ◌∷◌, ◌⊎◌, ◌⊘◌,
}
use polymarket_live_maker.JsonUtil.{member, member_str, to_str, to_double}
use polymarket_live_maker.Engine.Place.{lower_case}
use polymarket_live_maker.Engine.Live.{Ack}
use polymarket_live_maker.Clob.Client.{
  Resp, Outside, ClobSubmitter, is_2xx, http, json_header, signed_http, reply_member,
}
use polymarket_live_maker.Clob.Orders.{OrderError, Placement, place}
use polymarket_live_maker.Clob.Flatten.{Flattening, refused, flattened, flatten_partial, flatten}
use polymarket_live_maker.Clob.Trades.{ClobFill, extract_new_fills}

-- What a call of the submitter gives back. `ignored` is the action itself with its status.
pub data Outcome (W : Type 0) : Type 0 where
  not_placed : OrderError → Outcome W
  answered : Placement W → Outcome W
  cancelled cancel_failed : Resp → Outcome W
  swept : Flattening W → Outcome W
  ignored : Outcome W

unfoldable pub status_of_sweep : {W : Type 0} → Flattening W → Bytes
status_of_sweep (refused e) = codes "ERROR"
status_of_sweep (flattened v) = codes "FLATTENED"
status_of_sweep (flatten_partial v) = codes "ERROR"

-- The member `status`.
unfoldable pub status_of : {W : Type 0} → Outcome W → Bytes
unfolding status_of_sweep
status_of (not_placed e) = codes "ERROR"
status_of (answered p) = if p.ok then codes "PLACED" else codes "REJECTED"
status_of (cancelled r) = codes "CANCELLED"
status_of (cancel_failed r) = codes "ERROR"
status_of (swept f) = status_of_sweep f
status_of ignored = codes "IGNORED"

-- The answer as the engine reads it.
unfoldable pub ack_of : {W : Type 0} → Outcome W → Ack
unfolding status_of
ack_of r = record { status = some (status_of r) }

unfoldable pub outcome_of_place : {W : Type 0} → OrderError ⊎ Placement W → Outcome W
outcome_of_place (inl e) = not_placed e
outcome_of_place (inr p) = answered p

module _ {J W : Type 0} ⦃d : Double W⦄ (o : Outside J W) where
  unfoldable pub cancel_all : Bytes → ClobSubmitter W → Outcome W × ClobSubmitter W
  unfolding signed_http
  cancel_all token s =
      let path = codes "/cancel-market-orders" in
      let body = o.dump_object ((codes "asset_id", token) ∷ (codes "market", []) ∷ []) in
      let r = signed_http o (codes "DELETE") path path body s in
      (if is_2xx r.0.status then cancelled r.0 else cancel_failed r.0, r.1)

  unfoldable pub cancel_order : Bytes → ClobSubmitter W → ClobSubmitter W
  unfolding signed_http
  cancel_order order_id s =
      (signed_http o (codes "DELETE") (codes "/order") (codes "/order")
        (o.dump_object ((codes "orderID", order_id) ∷ [])) s).1

  -- The text of the order type, GTC where there is none.
  abbrev order_type_in : J → Bytes
  order_type_in action = elim (member o.lib action (codes "order_type")) [
    | none ↦ codes "GTC"
    | some v ↦ to_str o.lib v
  ]

  unfoldable pub submit_place : J → Bytes → ClobSubmitter W → Option (Outcome W × ClobSubmitter W)
  unfolding place outcome_of_place
  submit_place action token s = member o.lib action (codes "side") >>= λ side.
      member o.lib action (codes "price") >>= λ price.
      member o.lib action (codes "size") >>= λ size.
      let r =
        place o token (to_str o.lib side) (to_double o.lib price) (to_double o.lib size)
          (order_type_in action) s in
      some (outcome_of_place r.0, r.1)

  unfoldable pub submit_flatten : J → Bytes → ClobSubmitter W → Option (Outcome W × ClobSubmitter W)
  unfolding flatten
  submit_flatten action token s = member o.lib action (codes "side") >>= λ side.
      member o.lib action (codes "size") >>= λ size.
      let r = flatten o token (to_str o.lib side) (to_double o.lib size) s in some (swept r.0, r.1)

  -- operator(): `none` where it reads through a null pointer, for an action without a member.
  unfoldable pub submit : J → ClobSubmitter W → Option (Outcome W × ClobSubmitter W)
  unfolding submit_place submit_flatten cancel_all
  submit action s =
      let kind = member_str o.lib action (codes "action") in
      let token = member_str o.lib action (codes "token_id") in
      if same_str kind (codes "PLACE")
      then submit_place action token s
      else if same_str kind (codes "CANCEL_ALL")
      then some (cancel_all token s)
      else if same_str kind (codes "FLATTEN")
      then submit_flatten action token s
      else some (ignored, s)

  -- The array of the reply, or its member `data`.
  unfoldable pub trades_in : Resp → Option J
  trades_in r = elim (o.lib.parse r.body) [
    | none ↦ none
    | some j ↦ elim (o.lib.as_array j) [ some rows ↦ some j | none ↦ member o.lib j (codes "data") ]
  ]

  unfoldable pub fetch_trades_raw : ClobSubmitter W → Option J × ClobSubmitter W
  unfolding signed_http trades_in
  fetch_trades_raw s =
      let path = codes "/data/trades" in
      let query = path ++ (codes "?maker_address=" ++ lower_case s.creds.maker) in
      let r = signed_http o (codes "GET") path query [] s in (trades_in r.0, r.1)

  -- The fills above a cursor, and the cursor after them; `none` is JSON null, which is no array.
  unfoldable pub fills_above :
      Option J → Option Bytes → ClobSubmitter W → List (ClobFill W) × Option Bytes
  unfolding extract_new_fills
  fills_above none last s = ([], last)
  fills_above (some j) last s =
      extract_new_fills o.lib s.own_taker_ids s.invert_side (lower_case s.creds.maker) j last

  unfoldable pub poll_fills : ClobSubmitter W → List (ClobFill W) × ClobSubmitter W
  unfolding fetch_trades_raw fills_above
  poll_fills s =
      let r = fetch_trades_raw s in
      let got = fills_above r.0 s.last_trade_id r.1 in (got.0, record r.1 { last_trade_id = got.1 })

  unfoldable pub fills_since : Bytes → ClobSubmitter W → List (ClobFill W) × ClobSubmitter W
  unfolding fetch_trades_raw fills_above
  fills_since from_id s =
      let r = fetch_trades_raw s in
      if is_empty from_id then ([], s) else ((fills_above r.0 (some from_id) r.1).0, r.1)

  unfoldable pub usdc_balance : ClobSubmitter W → Option W × ClobSubmitter W
  unfolding http signed_http reply_member
  usdc_balance s =
      let path = codes "/balance-allowance" in
      let kind : Bytes = elim s.creds.signature_type [
        | ℤ.pos n ↦ to_string n
        | ℤ.negsuc n ↦ b'-' ∷ to_string (n + 1)
      ] in
      let query = path ++ (codes "?asset_type=COLLATERAL&signature_type=" ++ kind) in
      let r = signed_http o (codes "GET") path query [] s in
      let balance : Option W = elim (reply_member o r.0 (codes "balance")) [
        | none ↦ none
        | some v ↦ some (to_double o.lib v ⊘ lit 1000000 0)
      ] in
      (balance, r.1)

  -- The rows of the reply: the array itself, or the one under `data`.
  unfoldable pub orders_in : Resp → List J
  unfolding trades_in
  orders_in r = elim (trades_in r >>= o.lib.as_array) [ none ↦ [] | some rows ↦ rows ]

  unfoldable pub list_open_orders : ClobSubmitter W → List J × ClobSubmitter W
  unfolding signed_http orders_in
  list_open_orders s =
      let r = signed_http o (codes "GET") (codes "/data/orders") (codes "/data/orders") [] s in
      (orders_in r.0, r.1)

  unfoldable pub warm_ping : ClobSubmitter W → ClobSubmitter W
  unfolding http
  warm_ping s = (http o (codes "GET") (codes "/time") json_header [] s).1
