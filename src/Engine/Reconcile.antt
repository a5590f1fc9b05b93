-- ===== src/Engine/Reconcile.antt =====
-- reconcile_inventory and sync_capital of cpp/src/pmm/engine.cpp; what they print is left out.
use polymarket_live_maker.Prelude.{
  Bool, Bytes, Double, List, [], either, fabs, find, fmax, if◌then◌else◌, is_empty, lit, lt, nil,
  none, some, ℕ, ◌&&◌, ◌+◌, ◌∷◌, ◌⊕◌, ◌⊖◌,
}
use polymarket_live_maker.Engine.Store.{
  MakerQuote, AccrualUpdate, Store, update_cash, active_quotes, update_maker_quote_accrual,
}
use polymarket_live_maker.Engine.Accrue.{with_account}
use polymarket_live_maker.Engine.Growth.{
  Advances, Advances-refl, Advances-trans, update_cash-Advances, update_accrual-Advances,
}
use polymarket_live_maker.Engine.Histories.{with_account-Advances}

module _ {W : Type 0} ⦃d : Double W⦄ where
  abbrev held_of : List (Bytes × W) → Bytes → W
  held_of chain token = elim (find token chain) [ none ↦ nil | some size ↦ size ]

  -- The row with the positions of the chain.
  unfoldable pub chain_truth : List (Bytes × W) → MakerQuote W → AccrualUpdate W
  chain_truth chain q = record {
    accrued_rewards = q.accrued_rewards;
    realized_bleed = q.realized_bleed;
    fills = q.fills;
    last_mid = q.last_mid;
    last_accrued_at = q.last_accrued_at;
    inventory = held_of chain q.token_id;
    complement_inventory =
        if is_empty q.complement_token_id then nil else held_of chain q.complement_token_id;
    inventory_pnl = q.inventory_pnl;
  }

  unfoldable pub is_in_line : MakerQuote W → AccrualUpdate W → Bool
  is_in_line q u =
      lt (fabs (q.inventory ⊖ u.inventory)) (lit 5 1)
      && lt (fabs (q.complement_inventory ⊖ u.complement_inventory)) (lit 5 1)

  -- The rows in turn, with the number of those that were changed.
  unfoldable pub reconcile_quotes :
      List (Bytes × W) → List (MakerQuote W) → ℕ → Store W → ℕ × Store W
  unfolding chain_truth is_in_line update_maker_quote_accrual
  reconcile_quotes chain [] fixed st = (fixed, st)
  reconcile_quotes chain (q ∷ qs) fixed st =
      let u = chain_truth chain q in
      let kept = reconcile_quotes chain qs fixed st in
      let changed =
        reconcile_quotes chain qs (fixed + 1) (update_maker_quote_accrual q.id u st).1 in
      if is_in_line q u then kept else changed

  unfoldable pub reconcile_inventory : List (Bytes × W) → Store W → ℕ × Store W
  unfolding reconcile_quotes active_quotes
  reconcile_inventory chain st = reconcile_quotes chain (active_quotes st.quotes) 0 st

  unfoldable pub capital_of : W → List (MakerQuote W) → W
  capital_of sum [] = sum
  capital_of sum (q ∷ qs) = capital_of (sum ⊕ q.committed_capital) qs

  unfoldable pub committed_maker_capital : Store W → W
  unfolding capital_of active_quotes
  committed_maker_capital st = capital_of nil (active_quotes st.quotes)

  unfoldable pub sync_capital : W → Store W → Store W
  unfolding committed_maker_capital with_account update_cash
  sync_capital capital st =
      with_account st.cash
        (λ cash. update_cash (fmax nil (capital ⊖ committed_maker_capital st)) st) st

  reconcile_quotes-Advances :
      (chain : List (Bytes × W)) (qs : List (MakerQuote W)) (fixed : ℕ) (st : Store W)
      → Advances st (reconcile_quotes chain qs fixed st).1
  unfolding reconcile_quotes
  reconcile_quotes-Advances chain [] fixed st = Advances-refl st
  reconcile_quotes-Advances chain (q ∷ qs) fixed st =
      let u = chain_truth chain q in
      let after = (update_maker_quote_accrual q.id u st).1 in
      either (λ (x : ℕ × Store W). Advances st x.1) (is_in_line q u)
        (reconcile_quotes chain qs fixed st) (reconcile_quotes chain qs (fixed + 1) after)
        (reconcile_quotes-Advances chain qs fixed st)
        (Advances-trans st after _ (update_accrual-Advances q.id u st)
          (reconcile_quotes-Advances chain qs (fixed + 1) after))

  pub reconcile_inventory-Advances :
      (chain : List (Bytes × W)) (st : Store W) → Advances st (reconcile_inventory chain st).1
  unfolding reconcile_inventory
  reconcile_inventory-Advances chain st =
      reconcile_quotes-Advances chain (active_quotes st.quotes) 0 st

  pub sync_capital-Advances : (capital : W) (st : Store W) → Advances st (sync_capital capital st)
  unfolding sync_capital
  sync_capital-Advances capital st =
      with_account-Advances st.cash _ st (λ c. update_cash-Advances _ st)
