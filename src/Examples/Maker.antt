-- ===== src/Examples/Maker.antt =====
-- Runs of the bot and of the rate limiter at concrete inputs.
use polymarket_live_maker.Prelude.{
  All, List, Nanos, [], arith, codes, false, lit, nanos_double, nil, none, refl, some, true, ◌∷◌,
}
use polymarket_live_maker.OrderBook.{OrderBook}
use polymarket_live_maker.Examples.TailVendor.{bot_settings, flat, nanos-IsSigned}
use polymarket_live_maker.Maker.Bot.{MakerBotConfig, settings, new_bot}
use polymarket_live_maker.Maker.Steps.{InBounds}
use polymarket_live_maker.Maker.Steps.{AreSpaced}
use polymarket_live_maker.Maker.Runs.{
  Event, stepped, filled, switched, World, run, IsHeld, IsFlattened, run-jump, beginning,
  run-AreSpaced, run-InBounds,
}
use polymarket_live_maker.RateLimit.{new_bucket}
use polymarket_live_maker.RateLimit.Bounds.{
  IsOrdered, Try, IsCalm, tries, IsCapped, capacity_of, tries-new_bucket,
}

abbrev bot_config : MakerBotConfig Nanos
bot_config = record {
  token_id = codes "2";
  max_spread_c = lit 3 0;
  min_size = lit 50 0;
  tick = lit 1 2;
  half_spread_c = some (lit 1 0);
  size = none;
  dry_run = true;
  max_inventory = none;
  skew_strength_ticks = lit 2 0;
  jump_exit_ticks = none;
  external_fills = false;
}

abbrev no_book : OrderBook Nanos
no_book = record { bids = []; asks = [] }

abbrev a_day : List (Event Nanos)
a_day =
    stepped no_book (lit 5 1)
    ∷ filled (codes "BUY") (lit 20 0)
    ∷ stepped no_book (lit 52 2)
    ∷ switched true
    ∷ stepped no_book (lit 5 1)
    ∷ []

run-AreSpaced_example :
    AreSpaced (settings bot_config) 0 (run (settings bot_config) Unit a_day (beginning flat)).log
run-AreSpaced_example = run-AreSpaced Unit bot_config true flat (unfold new_bot in refl) a_day

run-InBounds_example :
    InBounds
      (settings bot_config)
      (run (settings bot_config) Unit a_day (beginning flat)).bot.inventory
run-InBounds_example =
    run-InBounds Unit bot_config true flat (unfold new_bot in refl) nanos-IsSigned
      (unfold settings in refl) a_day

abbrev held_events : List (Event Nanos)
held_events = stepped no_book (lit 6 1) ∷ switched true ∷ filled (codes "SELL") (lit 5 0) ∷ []

held_events-IsHeld : All IsHeld held_events
unfolding IsHeld
held_events-IsHeld = (tt, (refl, (tt, tt)))

abbrev awake : World Nanos
awake = record {
  bot = record {
    last_mid = some (lit 5 1);
    halted = false;
    inventory = nil;
    last_bid = none;
    last_ask = none;
  };
  log = [];
}

run-jump_example :
    IsFlattened bot_settings Unit awake
      (run bot_settings Unit (stepped no_book (lit 6 1) ∷ held_events) awake)
run-jump_example =
    run-jump bot_settings Unit no_book (lit 6 1) held_events awake refl refl held_events-IsHeld

nanos-IsOrdered : IsOrdered Nanos
nanos-IsOrdered = ground arith

abbrev a_try : Try Nanos
a_try = record { elapsed = lit 1 0; n = lit 1 0; low_priority = true }

tries-new_bucket_example :
    IsCapped
      (capacity_of (lit 2 0) none)
      (tries (a_try ∷ a_try ∷ []) (new_bucket (lit 2 0) none (lit 1 0)))
tries-new_bucket_example =
    tries-new_bucket nanos-IsOrdered (a_try ∷ a_try ∷ []) (lit 2 0) (lit 1 0) none
      (unfold IsCalm in (refl, (refl, tt)))
