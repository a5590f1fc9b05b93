-- ===== src/Examples/Clob.antt =====
-- The CLOB submitter at concrete inputs: a network that accepts what it gets, and a page of two trades.
use polymarket_live_maker.Prelude.{
  Bytes, List, Nanos, Option, [], arith, codes, false, find, if◌then◌else◌, is_empty, lit,
  nanos_double, nil, none, refl, same_str, some, suc, true, zero, ℕ, ℤ, ◌/◌, ◌<◌, ◌==◌, ◌^◌, ◌∷◌,
  ◌≡◌,
}
use polymarket_live_maker.JsonUtil.{JsonLib}
use polymarket_live_maker.Maker.Bot.{to_upper}
use polymarket_live_maker.Clob.Client.{Outside, ClobSubmitter, fetch_tick_size, fetch_neg_risk}
use polymarket_live_maker.Clob.Amounts.{get_order_amounts, round_config}
use polymarket_live_maker.Clob.Trades.{row_id}
use polymarket_live_maker.Clob.Trades.Polls.{
  Page, AreHistory, poll_pages, all_fills, last_page, poll_pages-all_fills,
}
use polymarket_live_maker.Clob.Orders.{order_type_of, place}
use polymarket_live_maker.Clob.Orders.Sent.{IsPlacement, place-IsPlacement}
use polymarket_live_maker.Clob.Flatten.{max_attempts, flatten}
use polymarket_live_maker.Clob.Flatten.Bounds.{IsSwept}
use polymarket_live_maker.Clob.Flatten.Loop.{fresh_sweep, flatten-IsSwept}
use polymarket_live_maker.Clob.Account.{new_submitter}
use polymarket_live_maker.Clob.Account.Gate.{IsGated, new_submitter-IsGated}
use polymarket_live_maker.Examples.Crypto.{toy_key, toy_secp}

-- Values are numbers: 0 is the reply to an order, 1 and 2 are trades, 3 and 5 are the page of
-- both; the others are texts.
abbrev members : ℕ → Option (List (Bytes × ℕ))
members zero = some (
    (codes "apiKey", 11)
    ∷ (codes "orderID", 13)
    ∷ (codes "secret", 12)
    ∷ (codes "status", 14)
    ∷ (codes "success", 15)
    ∷ [])
members (suc zero) = some ((codes "id", 11) ∷ [])
members (suc (suc zero)) = some ((codes "id", 12) ∷ [])
members _ = none

abbrev texts : ℕ → Option Bytes
texts v =
    if v == 11
    then some (codes "t1")
    else if v == 12
    then some (codes "t2")
    else if v == 13
    then some (codes "0xabc")
    else if v == 14
    then some (codes "matched")
    else none

abbrev rows_at : ℕ → Option (List ℕ)
rows_at v = if v == 3 then some (2 ∷ 1 ∷ []) else if v == 5 then some (2 ∷ 1 ∷ []) else none

abbrev toy_json : JsonLib ℕ Nanos
toy_json = record {
  parse = λ raw. some 0;
  dump = λ v. [];
  is_null = λ v. false;
  as_boolean = λ v. if v == 15 then some true else none;
  as_number = λ v. none;
  as_string = texts;
  as_array = rows_at;
  as_object = members;
  empty_array = 4;
  stod = λ s. none;
}

abbrev pub accepting : Outside ℕ Nanos
accepting = record {
  lib = toy_json;
  curve = toy_secp;
  hmac = λ key text. key;
  to_u64 = λ x. x / 1000000000;
  perform = λ log r. record { status = 200; body = r.body };
  now_unix = λ log. 1700000000;
  mono_now = λ log. nil;
  random_word = λ log. 12345;
  dump_object = λ ms. [];
}

abbrev pub a_submitter : ClobSubmitter Nanos
a_submitter = record {
  endpoint = codes "https://clob";
  creds = record {
    private_key = toy_key;
    maker = codes "0x07";
    signer_lc = codes "0x07";
    signature_type = ℤ.pos 0;
    api_key = codes "t1";
    api_secret = codes "t2";
    api_passphrase = [];
  };
  invert_side = false;
  last_trade_id = none;
  own_taker_ids = [];
  own_taker_fifo = [];
  tick_cache = [];
  neg_risk_cache = [];
  log = [];
}

abbrev some_token : Bytes
some_token = codes "77"

small_word : 12345 < 2 ^ 64
small_word = omega arith

place-IsPlacement_example :
    IsPlacement accepting
      (get_order_amounts accepting.to_u64
        (same_str (to_upper (codes "buy")) (codes "BUY"))
        (lit 20 0)
        (lit 5 1)
        (round_config (fetch_tick_size accepting some_token a_submitter).0))
      (fetch_neg_risk accepting some_token (fetch_tick_size accepting some_token a_submitter).1).0
      some_token
      (same_str (to_upper (codes "buy")) (codes "BUY"))
      (order_type_of accepting (codes "GTC"))
      a_submitter
      (place accepting some_token (codes "buy") (lit 5 1) (lit 20 0) (codes "GTC") a_submitter)
place-IsPlacement_example =
    place-IsPlacement accepting (λ log. small_word) some_token (codes "buy") (lit 20 0) (lit 5 1)
      (codes "GTC") a_submitter

flatten-IsSwept_example :
    IsSwept max_attempts
      (fresh_sweep accepting (lit 20 0))
      a_submitter
      (flatten accepting some_token (codes "SELL") (lit 20 0) a_submitter)
flatten-IsSwept_example = flatten-IsSwept accepting some_token (codes "SELL") (lit 20 0) a_submitter

-- A page with one new row above the known one, and a page with none.
abbrev two_pages : List (Page ℕ)
two_pages =
    record { reply = 3; batch = 2 ∷ []; older = []; own = [] }
    ∷ record { reply = 5; batch = []; older = 1 ∷ []; own = [] }
    ∷ []

two_pages-AreHistory : AreHistory toy_json false (codes "0x07") 1 two_pages
unfolding AreHistory row_id polymarket_live_maker.JsonUtil.member polymarket_live_maker.Prelude.find
    same_str polymarket_live_maker.JsonUtil.to_str
two_pages-AreHistory = (refl, ((refl, refl), tt), (refl, tt, tt))

one-some_id : is_empty (row_id toy_json 1) ≡ false
unfolding row_id polymarket_live_maker.JsonUtil.member polymarket_live_maker.Prelude.find same_str
    polymarket_live_maker.JsonUtil.to_str
one-some_id = refl

poll_pages-all_fills_example :
    poll_pages toy_json false (codes "0x07") two_pages (some (row_id toy_json 1)) ≡ (
      all_fills toy_json false (codes "0x07") two_pages,
      some (row_id toy_json (last_page toy_json false (codes "0x07") 1 two_pages)),
    )
poll_pages-all_fills_example =
    poll_pages-all_fills toy_json false (codes "0x07") two_pages 1 one-some_id two_pages-AreHistory

abbrev live_env : Bytes → Option Bytes
live_env name =
    if same_str name (codes "PM_TRADER_LIVE")
    then some (codes "1")
    else if same_str name (codes "POLYMARKET_PRIVATE_KEY")
    then some (codes "0x0700000000000000000000000000000000000000000000000000000000000001")
    else none

new_submitter-IsGated_example :
    IsGated accepting live_env
      (λ s. none)
      (λ x. ℤ.pos 0)
      (new_submitter accepting live_env (λ s. none) (λ x. ℤ.pos 0) (codes "https://clob"))
new_submitter-IsGated_example =
    new_submitter-IsGated accepting live_env (λ s. none) (λ x. ℤ.pos 0) (codes "https://clob")
