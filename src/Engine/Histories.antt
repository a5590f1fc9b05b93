-- ===== src/Engine/Histories.antt =====
-- The rows under the cancels, the placements on paper and the accruals of cpp/src/pmm/engine.cpp.
use polymarket_live_maker.Engine.Growth.{
  Advances, Advances-refl, Advances-trans, Advances-new, update_cash-Advances, cancel_row-Advances,
  update_accrual-Advances,
}
use polymarket_live_maker.Engine.Place.{RewardConfig}
use polymarket_live_maker.Engine.Accrue.{with_account, accrue_book, accrue_pool}
use polymarket_live_maker.Prelude.{
  Double, List, Option, [], either, fmax, inl, inr, nil, none, some, subst, sym, ℕ, ◌∷◌, ◌⊎◌, ◌⊕◌,
  ◌⊖◌,
}
use polymarket_live_maker.Engine.Store.{
  MakerQuote, AccrualUpdate, Store, is_active, update_cash, active_quotes, cancel_row,
  update_maker_quote_accrual,
}
use polymarket_live_maker.OrderBook.{OrderBook}
use polymarket_live_maker.Engine.Place.{EngineError, Api}
use polymarket_live_maker.Engine.Live.{cancel_with}
use polymarket_live_maker.Engine.Placed.{IsPlaced}
use polymarket_live_maker.Engine.Accrue.{
  QuoteRead, BookSource, Clock, credit_maker, exit_maker_quote, close_drifted, accrue_at,
  accrue_read, accrue_quotes, accrue_maker_rewards,
}

module _ {W : Type 0} ⦃d : Double W⦄ where
  paid_cancel-Advances :
      (k : ℕ) (c : W) (st : Store W) → Advances st (cancel_row k (update_cash c st)).1
  paid_cancel-Advances k c st =
      Advances-trans st (update_cash c st) _ (update_cash-Advances c st)
        (cancel_row-Advances k (update_cash c st))

  pub cancel_with-Advances :
      (k : ℕ) (cash : Option W) (found : Option (MakerQuote W)) (st : Store W)
      → Advances st (cancel_with k cash found st).1
  unfolding cancel_with
  cancel_with-Advances k none found st = Advances-refl st
  cancel_with-Advances k (some cash) none st = Advances-refl st
  cancel_with-Advances k (some cash) (some q) st =
      either (λ (x : Option (MakerQuote W) × Store W). Advances st x.1) (is_active q)
        (cancel_row k (update_cash (cash ⊕ q.committed_capital) st)) (none, st)
        (paid_cancel-Advances k (cash ⊕ q.committed_capital) st) (Advances-refl st)

  pub IsPlaced-Advances :
      (r : EngineError W ⊎ MakerQuote W) (st after : Store W)
      → IsPlaced st (r, after)
      → Advances st after
  unfolding IsPlaced
  IsPlaced-Advances (inl e) st after h = subst (λ s. Advances st s) (sym h) (Advances-refl st)
  IsPlaced-Advances (inr q) st after (cash, has, sound, on, new, same) =
      subst (λ s. Advances st s) (sym same) (Advances-new _ st q new)

  pub with_account-Advances :
      (cash : Option W) (change : W → Store W) (st : Store W)
      → ((c : W) → Advances st (change c))
      → Advances st (with_account cash change st)
  unfolding with_account
  with_account-Advances none change st h = Advances-refl st
  with_account-Advances (some c) change st h = h c

  pub credit_maker-Advances : (amount : W) (st : Store W) → Advances st (credit_maker amount st)
  unfolding credit_maker
  credit_maker-Advances amount st =
      with_account-Advances st.cash _ st (λ c. update_cash-Advances (c ⊕ amount) st)

  pub exit_maker_quote-Advances :
      (q : MakerQuote W) (cost : W) (st : Store W) → Advances st (exit_maker_quote q cost st)
  unfolding exit_maker_quote
  exit_maker_quote-Advances q cost st =
      with_account-Advances st.cash _ st
        (λ c. paid_cancel-Advances q.id (c ⊕ q.committed_capital ⊖ fmax nil cost) st)

  paid_accrual-Advances :
      (k : ℕ) (u : AccrualUpdate W) (amount : W) (st : Store W)
      → Advances st (update_maker_quote_accrual k u (credit_maker amount st)).1
  paid_accrual-Advances k u amount st =
      Advances-trans st (credit_maker amount st) _ (credit_maker-Advances amount st)
        (update_accrual-Advances k u (credit_maker amount st))

  module _ (crossing : W) (clock : Clock W) where
    close_drifted-Advances :
        (found : Option (MakerQuote W)) (inventory : W) (st after : Store W)
        → Advances st after
        → Advances st (close_drifted crossing clock (found, after) inventory)
    unfolding close_drifted
    close_drifted-Advances none inventory st after h = h
    close_drifted-Advances (some q) inventory st after h =
        Advances-trans st after _ h (exit_maker_quote-Advances q _ after)

    accrue_at-Advances :
        (q : MakerQuote W) (rate : W) (book : OrderBook W) (mid : W) (st : Store W)
        → Advances st (accrue_at crossing clock q rate book mid st)
    unfolding accrue_at
    accrue_at-Advances q rate book mid st =
        either (Advances st) _ _ _
          (close_drifted-Advances _ _ st _ (paid_accrual-Advances q.id _ _ st))
          (paid_accrual-Advances q.id _ _ st)

    accrue_book-Advances :
        (q : MakerQuote W) (rate : W) (found : Option (OrderBook W × W)) (st : Store W)
        → Advances st (accrue_book crossing clock q rate found st)
    unfolding accrue_book
    accrue_book-Advances q rate none st = Advances-refl st
    accrue_book-Advances q rate (some (book, mid)) st =
        either (Advances st) _ _ _ (accrue_at-Advances q rate book mid st) (Advances-refl st)

    accrue_pool-Advances :
        (q : MakerQuote W) (pool : Option (RewardConfig W)) (found : Option (OrderBook W × W))
        (st : Store W)
        → Advances st (accrue_pool crossing clock q pool found st)
    unfolding accrue_pool
    accrue_pool-Advances q none found st = exit_maker_quote-Advances q _ st
    accrue_pool-Advances q (some pool) found st =
        either (Advances st) _ _ _ (exit_maker_quote-Advances q _ st)
          (accrue_book-Advances q pool.daily found st)

    accrue_quotes-Advances :
        (reads : MakerQuote W → QuoteRead W) (qs : List (MakerQuote W)) (st : Store W)
        → Advances st (accrue_quotes crossing clock reads qs st)
    unfolding accrue_quotes accrue_read
    accrue_quotes-Advances reads [] st = Advances-refl st
    accrue_quotes-Advances reads (q ∷ qs) st =
        let r = reads q in
        Advances-trans st (accrue_read crossing clock q r st) _
          (either (Advances st) r.config_ok _ st (accrue_pool-Advances q r.pool r.book st)
            (Advances-refl st))
          (accrue_quotes-Advances reads qs (accrue_read crossing clock q r st))

    pub accrue_maker_rewards-Advances :
        (api : Api W) (source : Option (BookSource W)) (st : Store W)
        → Advances st (accrue_maker_rewards crossing clock api source st)
    unfolding accrue_maker_rewards
    accrue_maker_rewards-Advances api source st =
        with_account-Advances st.cash _ st
          (λ c. accrue_quotes-Advances _ (active_quotes st.quotes) st)
