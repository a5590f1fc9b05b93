-- ===== src/Examples/Engine.antt =====
-- The engine at concrete inputs: one placement, and one that the exchange refuses.
use polymarket_live_maker.Prelude.{
  List, Nanos, Option, [], codes, false, find, lit, nanos_double, nil, none, refl, same_str, some,
  ℤ, ◌∷◌, ◌≡◌,
}
use polymarket_live_maker.OrderBook.{committed_capital}
use polymarket_live_maker.Maker.{compute_two_sided_quotes_yes_no}
use polymarket_live_maker.Engine.Rows.{AreBelow}
use polymarket_live_maker.Engine.Store.{
  MakerQuote, active, active_quotes, Store, create_maker_quote, update_cash, get_maker_quote,
  cancel_row,
}
use polymarket_live_maker.Engine.Place.{
  complement_of, get_token_id, Market, RewardConfig, MakerQuoteOpts, Api, place_maker_quote,
}
use polymarket_live_maker.Engine.Live.{
  Ack, Call, cancel_orders, flatten_position, Desk, place_maker_quote_live,
}
use polymarket_live_maker.Engine.Placed.{IsPlaced, place_maker_quote-IsPlaced}
use polymarket_live_maker.Engine.Accrue.{Clock}
use polymarket_live_maker.Engine.AccrueLive.{LiveInput}
use polymarket_live_maker.Engine.AccrueLive.Rounds.{accrue_maker_rewards_live}
use polymarket_live_maker.Engine.AccrueLive.Retired.{
  AreCareful, accrue_maker_rewards_live-AreCareful,
}
use polymarket_live_maker.Engine.Growth.{Grows}
use polymarket_live_maker.Engine.Runs.{
  Action, place, place_live, cancel, accrue, accrue_live, run_actions, run_actions-Grows,
}
use polymarket_live_maker.Engine.Rollback.{IsSettled, place_maker_quote_live-IsSettled}

abbrev two_sided : Market
two_sided = record {
  condition_id = codes "0xc";
  slug = codes "rain";
  outcomes = codes "Yes" ∷ codes "No" ∷ [];
  tokens =
      record { token_id = codes "71"; outcome = codes "Yes" }
      ∷ record { token_id = codes "72"; outcome = codes "No" }
      ∷ [];
  closed = false;
}

abbrev pool : RewardConfig Nanos
pool = record { daily = lit 50 0; max_spread = lit 3 0; min_size = lit 50 0; tick = lit 1 2 }

abbrev pub toy_api : Api Nanos
toy_api = record {
  get_market = λ slug. some two_sided;
  get_reward_config = λ id. some (some pool);
  get_midpoint = λ token. some (lit 5 1);
  get_order_book = λ token. some (record { bids = []; asks = [] });
}

abbrev quote_opts : MakerQuoteOpts Nanos
quote_opts = record {
  size = none;
  half_spread_cents = none;
  cancel_efficiency = nil;
  max_inventory = none;
  skew_strength = nil;
}

abbrev rich : Store Nanos
rich = record { cash = some (lit 100 0); quotes = []; last_id = 0 }

-- The exchange refuses everything.
abbrev refusing : List (Call Nanos) → Call Nanos → Option Ack
refusing log call = some (record { status = some (codes "REJECTED") })

place_maker_quote-IsPlaced_example :
    IsPlaced rich (place_maker_quote toy_api (codes "rain") (codes " yes ") quote_opts [] rich)
place_maker_quote-IsPlaced_example =
    place_maker_quote-IsPlaced toy_api (codes "rain") (codes " yes ") quote_opts [] rich

place_maker_quote_live-IsSettled_example :
    IsSettled refusing
      (record { store = rich; calls = [] })
      (place_maker_quote_live refusing toy_api [] none
        (codes "rain")
        (codes "Yes")
        quote_opts
        []
        (record { store = rich; calls = [] }))
unfolding AreBelow
place_maker_quote_live-IsSettled_example =
    place_maker_quote_live-IsSettled refusing toy_api [] none (codes "rain") (codes "Yes")
      quote_opts [] (record { store = rich; calls = [] }) tt

-- After the refused legs no cash is lost, and the row is cancelled.
refused_run :
    (place_maker_quote_live refusing toy_api [] none
      (codes "rain")
      (codes "Yes")
      quote_opts
      []
      (record { store = rich; calls = [] })).1.store.cash
    ≡ some (lit 100 0)
unfolding place_maker_quote_live place_maker_quote same_str get_token_id committed_capital
    create_maker_quote find complement_of compute_two_sided_quotes_yes_no update_cash
    get_maker_quote cancel_row
refused_run = refl

-- Time is the count of hours; every stamp is of the first.
abbrev pub toy_clock : Clock Nanos
toy_clock = record { now = lit 7200 0; iso_to_unix = λ stamp. lit 3600 0; unix_to_iso = λ t. [] }

abbrev no_fills : LiveInput Nanos
no_fills = record { fills_by_token = []; recenter_ticks = ℤ.pos 1; force_recenter = none }

abbrev a_morning : List (Action Nanos)
a_morning =
    place toy_api (codes "rain") (codes "Yes") quote_opts []
    ∷ accrue nil toy_clock toy_api none
    ∷ place_live refusing toy_api [] none (codes "rain") (codes "No") quote_opts []
    ∷ accrue_live refusing nil toy_clock no_fills toy_api none
    ∷ cancel 1
    ∷ []

run_actions-Grows_example :
    AreBelow
      (run_actions a_morning (record { store = rich; calls = [] })).store.last_id
      (run_actions a_morning (record { store = rich; calls = [] })).store.quotes
    × Grows [] (run_actions a_morning (record { store = rich; calls = [] })).store.quotes
unfolding AreBelow
run_actions-Grows_example = run_actions-Grows a_morning (record { store = rich; calls = [] }) tt

-- One active quote, with a fill of its first token since.
abbrev pub resting_quote : MakerQuote Nanos
resting_quote = record {
  id = 1;
  market_slug = codes "rain";
  market_condition_id = codes "0xc";
  outcome = codes "Yes";
  token_id = codes "71";
  complement_token_id = codes "72";
  size = lit 50 0;
  half_spread_c = lit 1 0;
  max_spread_c = lit 3 0;
  min_size = lit 50 0;
  daily_rate = lit 50 0;
  tick = lit 1 2;
  cancel_efficiency = nil;
  max_inventory = lit 250 0;
  skew_strength = nil;
  inventory = nil;
  complement_inventory = nil;
  inventory_pnl = nil;
  entry_mid = lit 5 1;
  committed_capital = lit 49 0;
  accrued_rewards = nil;
  realized_bleed = nil;
  fills = 0;
  status = active;
  last_mid = lit 5 1;
  last_accrued_at = [];
}

abbrev pub quoting : Desk Nanos
quoting = record {
  store = record { cash = some (lit 51 0); quotes = resting_quote ∷ []; last_id = 1 };
  calls = [];
}

abbrev pub one_fill : LiveInput Nanos
one_fill = record {
  fills_by_token =
      (codes "71", record { side = codes "buy"; size = lit 25 0; price = lit 49 2 } ∷ []) ∷ [];
  recenter_ticks = ℤ.pos 1;
  force_recenter = none;
}

-- The exchange accepts everything.
abbrev agreeing : List (Call Nanos) → Call Nanos → Option Ack
agreeing log call = some (record { status = some (codes "OK") })

accrue_maker_rewards_live-AreCareful_example :
    AreCareful agreeing nil toy_clock one_fill
      (resting_quote ∷ [])
      quoting
      (accrue_maker_rewards_live agreeing nil toy_clock one_fill toy_api none quoting).1
unfolding active_quotes
accrue_maker_rewards_live-AreCareful_example =
    accrue_maker_rewards_live-AreCareful agreeing nil toy_clock one_fill toy_api none quoting

-- The fill ends the quote, after both cancels and the sale.
fill_exit :
    (accrue_maker_rewards_live agreeing nil toy_clock one_fill toy_api none quoting).1.calls
    ≡ cancel_orders (codes "71")
      ∷ cancel_orders (codes "72")
      ∷ flatten_position (codes "71") (codes "SELL") (lit 25 0)
      ∷ []
unfolding accrue_maker_rewards_live polymarket_live_maker.Engine.Act.then_act find same_str
    polymarket_live_maker.Engine.Place.lower_case
fill_exit = refl
