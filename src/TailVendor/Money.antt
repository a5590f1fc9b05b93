-- ===== src/TailVendor/Money.antt =====
-- The money bounds of a whole round of `plan` in cpp/src/pmm/tail_vendor.cpp, told from its actions.
use polymarket_live_maker.Prelude.{
  Bool, Bytes, Double, List, [], false, find_or, gt, nil, same_str, ◌&&◌, ◌≡◌, ◌⊎◌, ◌⊕◌, ◌⊗◌,
}
use polymarket_live_maker.TailVendor.{Candidate, Config, eps, cap_coin, cap_total}
use polymarket_live_maker.TailVendor.Plan.{
  OpenOrder, Ledger, Cands, same_bool, sweep_open, coins, total_of, plan,
}
use polymarket_live_maker.TailVendor.Ledger.{IsTable, spent, tally}
use polymarket_live_maker.TailVendor.Sweep.{IsSpread}
use polymarket_live_maker.TailVendor.Standing.{
  standing, stands, of_leg, of_coin, standing-plan, total-opening, coin-opening,
}
use polymarket_live_maker.TailVendor.Caps.{opened_total_cap, opened_coin_cap}

module _ {W : Type 0} ⦃d : Double W⦄ (times_comm : (x y : W) → x ⊗ y ≡ y ⊗ x) (cfg : Config W)
    (touch : Bool) (cands : Cands W) (open_orders : List (OpenOrder W)) (held : Ledger W)
    (table : IsTable cands) (spread : IsSpread open_orders) where
  kept_same :
      standing (plan cands open_orders held cfg) open_orders []
      ≡ (sweep_open cands cfg open_orders []).1
  kept_same = standing-plan cands cfg open_orders held table spread

  -- For either leg of a round, over a table keyed by its tokens and open orders with different
  -- tokens: either the round places no order of the leg, or the money of the leg is not above its
  -- total bound (with the slack of the code). The money is what was held at the start, that of the
  -- open orders that no action of the round cancels, and that of the orders that the round places,
  -- all told from the actions. Multiplication of doubles commutes.
  pub plan-total_cap :
      let out = plan cands open_orders held cfg in
      let leg = λ (c : Candidate W). same_bool c.is_touch touch in
      let stay = stands (of_leg cands touch) (total_of touch held) (standing out open_orders []) in
      (tally leg cands out ≡ 0)
      ⊎ (gt (spent leg cands stay out) (cap_total touch cfg ⊕ eps) ≡ false)
  plan-total_cap =
      rw (kept_same, ← total-opening cands touch (sweep_open cands cfg open_orders []).1 held)
        (opened_total_cap times_comm cfg touch cands open_orders held table)

  -- The same for the money of any one coin that has a name, in either leg, over a table keyed by
  -- its tokens and open orders with different tokens: the round places no order for the coin, or
  -- what was held of it, the open orders that carry the coin and that no action of the round
  -- cancels, and the orders placed for it, end not above the bound of that coin. Multiplication of
  -- doubles commutes.
  pub plan-coin_cap :
      (k : Bytes)
      → same_str k [] ≡ false
      → (let out = plan cands open_orders held cfg in
          let leg = λ (c : Candidate W). same_bool c.is_touch touch && same_str k c.coin in
          let stay =
            stands
              (of_coin cands touch k)
              (find_or nil k (coins touch held))
              (standing out open_orders []) in
          (tally leg cands out ≡ 0)
          ⊎ (gt (spent leg cands stay out) (cap_coin touch k cfg ⊕ eps) ≡ false))
  plan-coin_cap k named =
      rw
        (kept_same, ← coin-opening cands touch k (sweep_open cands cfg open_orders []).1 held named)
        (opened_coin_cap times_comm cfg touch cands open_orders held table k)
