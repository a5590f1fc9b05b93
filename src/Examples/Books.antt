-- ===== src/Examples/Books.antt =====
-- The number of orders at concrete inputs.
use polymarket_live_maker.Prelude.{[], exceeds, false, length, nanos_double, ◌+◌, ◌∷◌, ◌≡◌, ◌⊎◌}
use polymarket_live_maker.Examples.TailVendor.{cands, cfg, stale, held, cands-IsTable}
use polymarket_live_maker.TailVendor.Plan.{plan, sweep_open}
use polymarket_live_maker.TailVendor.Ledger.{tally}
use polymarket_live_maker.TailVendor.Orders.{any_row, touch_row, plan-order_count}

plan-order_count_example :
    ((tally any_row cands (plan cands (stale ∷ []) held cfg) ≡ 0)
      ⊎ (exceeds
            (length (sweep_open cands cfg (stale ∷ []) []).1
              + tally any_row cands (plan cands (stale ∷ []) held cfg))
            cfg.max_orders
          ≡ false))
    × ((tally touch_row cands (plan cands (stale ∷ []) held cfg) ≡ 0)
        ⊎ (exceeds (tally touch_row cands (plan cands (stale ∷ []) held cfg)) cfg.touch_max_orders
            ≡ false))
plan-order_count_example = plan-order_count cfg cands (stale ∷ []) held cands-IsTable
