-- ===== src/Engine/Runs.antt =====
-- Runs of the engine, in which the replies of the API and of the exchange differ from action to action.
use polymarket_live_maker.Prelude.{Bytes, Double, List, Option, [], inl, inr, subst, sym, ℕ, ◌∷◌}
use polymarket_live_maker.Engine.Place.{MakerQuoteOpts, Api, place_maker_quote}
use polymarket_live_maker.Engine.Live.{
  Call, Ack, Desk, LiveResult, skipped_holding, placed, failed, threw, cancel_maker_quote,
  place_maker_quote_live,
}
use polymarket_live_maker.Engine.Placed.{place_maker_quote-IsPlaced}
use polymarket_live_maker.Engine.Rows.{AreBelow, closed}
use polymarket_live_maker.Engine.Rollback.{
  IsSettled, IsRolledBack, IsRefunded, place_maker_quote_live-IsSettled,
}
use polymarket_live_maker.Engine.Accrue.{BookSource, Clock, accrue_maker_rewards}
use polymarket_live_maker.Engine.Reconcile.{
  reconcile_inventory, sync_capital, reconcile_inventory-Advances, sync_capital-Advances,
}
use polymarket_live_maker.Engine.AccrueLive.{LiveInput}
use polymarket_live_maker.Engine.AccrueLive.Rounds.{accrue_maker_rewards_live}
use polymarket_live_maker.Engine.AccrueLive.Growth.{accrue_maker_rewards_live-Advances}
use polymarket_live_maker.Engine.Growth.{
  Grows, Advances, Advances-refl, Advances-trans, Advances-new,
}
use polymarket_live_maker.Engine.Histories.{
  cancel_with-Advances, IsPlaced-Advances, accrue_maker_rewards-Advances,
}

pub data Action (W : Type 0) : Type 0 where
  place : Api W → Bytes → Bytes → MakerQuoteOpts W → Bytes → Action W
  place_live :
      (List (Call W) → Call W → Option Ack)
      → Api W
      → List (Bytes × W)
      → Option (W × W)
      → Bytes
      → Bytes
      → MakerQuoteOpts W
      → Bytes
      → Action W
  cancel : ℕ → Action W
  accrue : W → Clock W → Api W → Option (BookSource W) → Action W
  reconcile : List (Bytes × W) → Action W
  sync : W → Action W
  accrue_live :
      (List (Call W) → Call W → Option Ack)
      → W
      → Clock W
      → LiveInput W
      → Api W
      → Option (BookSource W)
      → Action W

module _ {W : Type 0} ⦃d : Double W⦄ where
  unfoldable pub act : Action W → Desk W → Desk W
  unfolding place_maker_quote place_maker_quote_live cancel_maker_quote accrue_maker_rewards
      reconcile_inventory sync_capital accrue_maker_rewards_live
  act (place api slug outcome opts stamp) desk = record desk {
    store = (place_maker_quote api slug outcome opts stamp desk.store).1;
  }
  act (place_live submit api chain micro slug outcome opts stamp) desk =
      (place_maker_quote_live submit api chain micro slug outcome opts stamp desk).1
  act (cancel k) desk = record desk { store = (cancel_maker_quote k desk.store).1 }
  act (accrue crossing clock api source) desk = record desk {
    store = accrue_maker_rewards crossing clock api source desk.store;
  }
  act (reconcile chain) desk = record desk { store = (reconcile_inventory chain desk.store).1 }
  act (sync capital) desk = record desk { store = sync_capital capital desk.store }
  act (accrue_live submit crossing clock input api source) desk =
      (accrue_maker_rewards_live submit crossing clock input api source desk).1

  unfoldable pub run_actions : List (Action W) → Desk W → Desk W
  unfolding act
  run_actions [] desk = desk
  run_actions (a ∷ actions) desk = run_actions actions (act a desk)

  settled-Advances :
      (submit : List (Call W) → Call W → Option Ack) (desk : Desk W) (r : LiveResult W × Desk W)
      → IsSettled submit desk r
      → Advances desk.store r.1.store
  unfolding IsSettled IsRolledBack IsRefunded
  settled-Advances submit desk (failed e, after) (inl same) =
      subst (λ (x : Desk W). Advances desk.store x.store) (sym same) (Advances-refl desk.store)
  settled-Advances submit desk (failed e, after) (inr (q, log, asked, (cash, has, new, same))) =
      subst (λ s. Advances desk.store s) (sym same) (Advances-new _ desk.store (closed q) new)
  settled-Advances submit desk (placed q acks, after) (ok, new) =
      IsPlaced-Advances (inr q) desk.store after.store new
  settled-Advances submit desk (skipped_holding, after) (same, q, new) =
      IsPlaced-Advances (inr q) desk.store after.store new
  settled-Advances submit desk (threw, after) (q, new) =
      IsPlaced-Advances (inr q) desk.store after.store new

  act-Advances : (a : Action W) (desk : Desk W) → Advances desk.store (act a desk).store
  unfolding act cancel_maker_quote Advances
  act-Advances (place api slug outcome opts stamp) desk =
      IsPlaced-Advances _ desk.store _
        (place_maker_quote-IsPlaced api slug outcome opts stamp desk.store)
  act-Advances (place_live submit api chain micro slug outcome opts stamp) desk = λ below.
      settled-Advances submit desk _
        (place_maker_quote_live-IsSettled submit api chain micro slug outcome opts stamp desk below)
        below
  act-Advances (cancel k) desk = cancel_with-Advances k _ _ desk.store
  act-Advances (accrue crossing clock api source) desk =
      accrue_maker_rewards-Advances crossing clock api source desk.store
  act-Advances (reconcile chain) desk = reconcile_inventory-Advances chain desk.store
  act-Advances (sync capital) desk = sync_capital-Advances capital desk.store
  act-Advances (accrue_live submit crossing clock input api source) desk =
      accrue_maker_rewards_live-Advances submit crossing clock input api source desk

  run_actions-Advances :
      (actions : List (Action W)) (desk : Desk W)
      → Advances desk.store (run_actions actions desk).store
  unfolding run_actions
  run_actions-Advances [] desk = Advances-refl desk.store
  run_actions-Advances (a ∷ actions) desk =
      Advances-trans desk.store (act a desk).store _ (act-Advances a desk)
        (run_actions-Advances actions (act a desk))

  -- Where the ids so far are not above the last one, over any placements on paper or live, cancels,
  -- accruals on paper or live, corrections of the inventory and of the cash the ids stay so, and
  -- each row stays in its place with its id and its capital; one that was cancelled is never active
  -- again.
  pub run_actions-Grows :
      (actions : List (Action W)) (desk : Desk W)
      → AreBelow desk.store.last_id desk.store.quotes
      → AreBelow (run_actions actions desk).store.last_id (run_actions actions desk).store.quotes
        × Grows desk.store.quotes (run_actions actions desk).store.quotes
  unfolding Advances
  run_actions-Grows actions desk below = run_actions-Advances actions desk below
