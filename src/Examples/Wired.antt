-- ===== src/Examples/Wired.antt =====
-- The engine and the submitter together at concrete inputs.
use polymarket_live_maker.Prelude.{[], nanos_double, nil, none, ◌∷◌}
use polymarket_live_maker.Engine.Store.{active_quotes}
use polymarket_live_maker.Engine.AccrueLive.Rounds.{accrue_maker_rewards_live}
use polymarket_live_maker.Engine.Wired.{
  exchange, AreExecuted, accrue_maker_rewards_live-AreExecuted,
}
use polymarket_live_maker.Examples.Engine.{toy_api, toy_clock, resting_quote, quoting, one_fill}
use polymarket_live_maker.Examples.Clob.{accepting, a_submitter}

accrue_maker_rewards_live-AreExecuted_example :
    AreExecuted accepting one_fill a_submitter
      (resting_quote ∷ [])
      quoting
      (accrue_maker_rewards_live
        (exchange accepting a_submitter)
        nil
        toy_clock
        one_fill
        toy_api
        none
        quoting).1
unfolding active_quotes
accrue_maker_rewards_live-AreExecuted_example =
    accrue_maker_rewards_live-AreExecuted accepting a_submitter nil toy_clock one_fill toy_api none
      quoting
