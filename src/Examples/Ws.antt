-- ===== src/Examples/Ws.antt =====
-- The channels at concrete inputs: one trade that comes twice, and a book.
use polymarket_live_maker.Prelude.{
  Bytes, List, Nanos, Option, [], codes, false, get_or, if◌then◌else◌, is_empty, lit, nanos_double,
  none, some, suc, true, zero, ℕ, ◌++◌, ◌==◌, ◌∷◌, ◌≡◌,
}
use polymarket_live_maker.JsonUtil.{JsonLib}
use polymarket_live_maker.Ws.User.{new_user_channel, window}
use polymarket_live_maker.Ws.User.Window.{IsWindow}
use polymarket_live_maker.Ws.User.Window.History.{deliver}
use polymarket_live_maker.Ws.User.Feed.{
  Op, message, poll, reported, run_ops, run_ops-new_user_channel, run_ops-IsWindow,
}
use polymarket_live_maker.Ws.Market.{MarketChannel}
use polymarket_live_maker.Ws.Market.Runs.{frame, IsTimedBy, market_op, market_op-IsTimedBy}

-- Values are numbers: 0 is a trade, 1 an event with a book, 2 its levels, the others are texts.
abbrev members : ℕ → Option (List (Bytes × ℕ))
members zero =
    some (
      (codes "asset_id", 12)
      ∷ (codes "event_type", 10)
      ∷ (codes "id", 11)
      ∷ (codes "side", 13)
      ∷ [])
members (suc zero) =
    some (
      (codes "asks", 2)
      ∷ (codes "asset_id", 12)
      ∷ (codes "bids", 2)
      ∷ (codes "event_type", 14)
      ∷ [])
members (suc (suc zero)) = none
members (suc (suc (suc zero))) = some ((codes "price", 20) ∷ (codes "size", 20) ∷ [])
members _ = none

texts : ℕ → Option Bytes
texts v =
    if v == 10
    then some (codes "trade")
    else if v == 11
    then some (codes "t1")
    else if v == 12
    then some (codes "77")
    else if v == 13
    then some (codes "buy")
    else if v == 14
    then some (codes "book")
    else none

abbrev toy_json : JsonLib ℕ Nanos
toy_json = record {
  parse = λ raw. if is_empty raw then none else some (get_or raw 0 0);
  dump = λ v. [];
  is_null = λ v. false;
  as_boolean = λ v. none;
  as_number = λ v. if v == 20 then some (lit 5 1) else none;
  as_string = texts;
  as_array = λ v. if v == 2 then some (3 ∷ []) else none;
  as_object = members;
  empty_array = 4;
  stod = λ s. none;
}

abbrev two_trades : List Op
two_trades = message (0 ∷ []) ∷ message (0 ∷ []) ∷ poll ∷ message (0 ∷ []) ∷ []

run_ops-new_user_channel_example :
    let end = run_ops toy_json two_trades ([], new_user_channel false) in
    end.0 ++ end.1.queue ≡ deliver (reported toy_json false two_trades) []
run_ops-new_user_channel_example = run_ops-new_user_channel toy_json false two_trades

run_ops-IsWindow_example :
    let end = (run_ops toy_json two_trades ([], new_user_channel true)).1 in
    IsWindow end.seen end.seen_fifo window
run_ops-IsWindow_example = run_ops-IsWindow toy_json true two_trades

abbrev a_channel : MarketChannel Nanos
a_channel = record {
  levels = [];
  ts = [];
  subs = [];
  updates = [];
  last_recv = lit 0 0;
  has_callback = true;
}

market_op-IsTimedBy_example :
    IsTimedBy toy_json
      (frame (lit 1 0) (1 ∷ []))
      a_channel
      (market_op toy_json (frame (lit 1 0) (1 ∷ [])) a_channel)
market_op-IsTimedBy_example = market_op-IsTimedBy toy_json (frame (lit 1 0) (1 ∷ [])) a_channel
