-- ===== src/Clob/Trades.antt =====
-- extract_new_fills of cpp/src/pmm/clob_submitter.cpp: the fills of the trades above a cursor. The JSON
-- library is a parameter; the rows come newest first.
pub mod Polls
use polymarket_live_maker.Prelude.{
  Bool, Bytes, Double, List, Option, StringSet, [], codes, contains, false, if◌then◌else◌, is_empty,
  none, not, same_str, some, ◌&&◌, ◌++◌, ◌>>=◌, ◌||◌, ◌∷◌,
}
use polymarket_live_maker.JsonUtil.{JsonLib, member, member_str, member_double, to_str}
use polymarket_live_maker.Maker.Bot.{to_upper}
use polymarket_live_maker.Engine.Place.{lower_case}

-- A fill; `order_id` is a member only of the fills of the own maker orders.
pub record ClobFill (W : Type 0) : Type 0 where
  pub id : Bytes
  pub order_id : Option Bytes
  pub token_id : Bytes
  pub side : Bytes
  pub size : W
  pub price : W

module _ {J W : Type 0} ⦃d : Double W⦄ (lib : JsonLib J W) where
  -- The first of two members, as text.
  unfoldable pub first_str : J → Bytes → Bytes → Bytes
  first_str t a b = elim (member lib t a) [ some v ↦ to_str lib v | none ↦ member_str lib t b ]

  unfoldable pub row_id : J → Bytes
  unfolding first_str
  row_id t = first_str t (codes "id") (codes "trade_id")

  unfoldable pub names_own : StringSet → J → List Bytes → Bool
  names_own own t [] = false
  names_own own t (k ∷ ks) =
      elim (member lib t k) [ none ↦ false | some v ↦ contains (to_str lib v) own ]
      || names_own own t ks

  -- A trade in which an own order took.
  unfoldable pub is_own : StringSet → J → Bool
  unfolding names_own
  is_own own t =
      names_own own t
        (codes "taker_order_id" ∷ codes "takerOrderId" ∷ codes "order_id" ∷ codes "orderID" ∷ [])

  unfoldable pub leg_fill : Bytes → J → ClobFill W
  leg_fill tid mo = record {
    id = tid;
    order_id = elim (member lib mo (codes "order_id")) [
      | none ↦ none
      | some v ↦ some (to_str lib v)
    ];
    token_id = member_str lib mo (codes "asset_id");
    side = to_upper (member_str lib mo (codes "side"));
    size = member_double lib mo (codes "matched_amount");
    price = member_double lib mo (codes "price");
  }

  -- The legs of the own address.
  unfoldable pub leg_fills : Bytes → Bytes → List J → List (ClobFill W)
  unfolding leg_fill
  leg_fills maker_lc tid [] = []
  leg_fills maker_lc tid (mo ∷ mos) =
      let rest = leg_fills maker_lc tid mos in
      if same_str (lower_case (member_str lib mo (codes "maker_address"))) maker_lc
      then leg_fill tid mo ∷ rest
      else rest

  unfoldable pub top_fill : Bool → J → ClobFill W
  unfolding row_id first_str
  top_fill invert t =
      let side = to_upper (member_str lib t (codes "side")) in
      record {
        id = row_id t;
        order_id = none;
        token_id = first_str t (codes "asset_id") (codes "token_id");
        side =
            if invert
            then (if same_str side (codes "BUY") then codes "SELL" else codes "BUY")
            else side;
        size = member_double lib t (codes "size");
        price = member_double lib t (codes "price");
      }

  -- The array of maker orders, where there is an address to look for.
  unfoldable pub maker_orders : Bytes → J → Option (List J)
  maker_orders maker_lc t =
      if is_empty maker_lc then none else (member lib t (codes "maker_orders") >>= lib.as_array)

  unfoldable pub row_fills : StringSet → Bool → Bytes → J → List (ClobFill W)
  unfolding is_own maker_orders leg_fills top_fill row_id
  row_fills own invert maker_lc t = if is_own own t then [] else elim (maker_orders maker_lc t) [
    | some mos ↦ leg_fills maker_lc (row_id t) mos
    | none ↦ top_fill invert t ∷ []
  ]

  -- `prev_id.has_value() && tid == *prev_id`.
  abbrev is_prev : Option Bytes → Bytes → Bool
  is_prev none tid = false
  is_prev (some p) tid = same_str tid p

  module _ (own : StringSet) (invert : Bool) (maker_lc : Bytes) where
    -- The loop: it ends at the row of the cursor with which it began.
    unfoldable pub extract_rows :
        Option Bytes → List J → Option Bytes → Bool → List (ClobFill W) × Option Bytes
    unfolding row_fills row_id
    extract_rows prev [] last seen = ([], last)
    extract_rows prev (t ∷ ts) last seen =
        let tid = row_id t in
        let moved = if not seen && not (is_empty tid) then some tid else last in
        let rest = extract_rows prev ts moved (seen || not (is_empty tid)) in
        if not (is_empty tid) && is_prev prev tid
        then ([], last)
        else (row_fills own invert maker_lc t ++ rest.0, rest.1)

    unfoldable pub extract_new_fills : J → Option Bytes → List (ClobFill W) × Option Bytes
    unfolding extract_rows
    extract_new_fills json last = elim (lib.as_array json) [
      | none ↦ ([], last)
      | some rows ↦ extract_rows last rows last false
    ]
