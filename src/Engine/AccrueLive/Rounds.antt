-- ===== src/Engine/AccrueLive/Rounds.antt =====
-- The rounds of accrue_maker_rewards_live of cpp/src/pmm/engine.cpp over the active quotes.
use polymarket_live_maker.Prelude.{
  Double, List, Option, [], fabs, fmax, fmin, ge, gt, if◌then◌else◌, le, lit, lt, nil, none, not,
  some, ◌&&◌, ◌+◌, ◌==◌, ◌||◌, ◌∷◌, ◌⊕◌, ◌⊖◌, ◌⊗◌, ◌⊘◌,
}
use polymarket_live_maker.OrderBook.{OrderBook, book_inband_qmin, maker_reward_share}
use polymarket_live_maker.OrderBook.Signals.{reward_accrual}
use polymarket_live_maker.Engine.Store.{MakerQuote, AccrualUpdate, active_quotes}
use polymarket_live_maker.Engine.Place.{RewardConfig, Api}
use polymarket_live_maker.Engine.Live.{Ack, Call}
use polymarket_live_maker.Engine.Accrue.{QuoteRead, BookSource, Clock, read_one, credit_maker}
use polymarket_live_maker.Engine.Act.{Act, ◌>>◌, pure, change}
use polymarket_live_maker.Engine.AccrueLive.{
  LiveInput, FillSums, at_least_one, forces, both_legs, wind_down, drift_exit, recenter, persist,
  with_inventories,
}

module _ {W : Type 0} ⦃d : Double W⦄ where
  unfoldable pub live_update : Clock W → MakerQuote W → W → FillSums W → W → W → AccrualUpdate W
  live_update clock q accrued sums mid pnl = record {
    accrued_rewards = accrued;
    realized_bleed = q.realized_bleed ⊕ sums.bleed;
    fills = q.fills + sums.count;
    last_mid = mid;
    last_accrued_at = clock.unix_to_iso clock.now;
    inventory = nil;
    complement_inventory = nil;
    inventory_pnl = q.inventory_pnl ⊕ pnl;
  }

  -- At most ten minutes are paid at once.
  unfoldable pub live_reward : Clock W → MakerQuote W → W → OrderBook W → W → W
  live_reward clock q daily_rate book mid =
      let since = clock.now ⊖ clock.iso_to_unix q.last_accrued_at in
      let seconds = fmin (fmax nil since) (lit 600 0) in
      let share =
        maker_reward_share q.size q.half_spread_c q.max_spread_c
          (book_inband_qmin book mid q.max_spread_c) in
      reward_accrual share daily_rate seconds

module _ {W : Type 0} ⦃d : Double W⦄ (submit : List (Call W) → Call W → Option Ack) where
  module _ (crossing : W) (clock : Clock W) (input : LiveInput W) where
    -- The pool is gone, or pays nothing.
    unfoldable pub end_rewards : MakerQuote W → Act W (Unit {0})
    unfolding both_legs live_update wind_down
    end_rewards q =
        let legs = both_legs input q q.last_mid q.inventory q.complement_inventory in
        let sums = legs.1 in
        wind_down submit q legs.0 sums.moved sums.pnl
          (live_update clock q q.accrued_rewards sums q.last_mid sums.pnl) crossing

    -- Without fills and out of the band: whether the quote is set anew, and what it has earned.
    unfoldable pub keep_quote :
        MakerQuote W → W → OrderBook W → W → AccrualUpdate W → Act W (Unit {0})
    unfolding recenter persist credit_maker
    keep_quote q mid book amount u = do
      let ticks = lit (at_least_one input.recenter_ticks) 0
      if forces input.force_recenter q.token_id || ge (fabs (mid ⊖ q.last_mid)) (ticks ⊗ q.tick)
          then recenter submit q mid book
          else pure tt
      change (λ st.
          persist q (with_inventories q.inventory q.complement_inventory u)
            (credit_maker amount st))

    unfoldable pub accrue_live_at : MakerQuote W → W → OrderBook W → W → Act W (Unit {0})
    unfolding both_legs live_update live_reward wind_down drift_exit keep_quote
    accrue_live_at q daily_rate book mid =
        let reward = live_reward clock q daily_rate book mid in
        let legs = both_legs input q mid nil nil in
        let sums = legs.1 in
        let pnl =
          q.inventory ⊗ (mid ⊖ q.last_mid)
          ⊕ q.complement_inventory ⊗ (q.last_mid ⊖ mid)
          ⊕ sums.pnl in
        let u = live_update clock q (q.accrued_rewards ⊕ reward) sums mid pnl in
        let amount = reward ⊕ pnl in
        let entry_mid = if gt q.entry_mid nil then q.entry_mid else mid in
        let holds_any =
          ge (fabs q.inventory) (lit 1 0) || ge (fabs q.complement_inventory) (lit 1 0) in
        if not (sums.count == 0) || holds_any
        then wind_down submit q (q.inventory ⊕ legs.0) (q.complement_inventory ⊕ sums.moved) amount
            u crossing
        else if ge (fabs (mid ⊖ entry_mid)) (q.max_spread_c ⊘ lit 100 0)
        then drift_exit submit q amount u
        else keep_quote q mid book amount u

    unfoldable pub accrue_live_book : MakerQuote W → W → Option (OrderBook W × W) → Act W (Unit {0})
    unfolding accrue_live_at
    accrue_live_book q daily_rate none = pure tt
    accrue_live_book q daily_rate (some (book, mid)) =
        if lt nil mid && lt mid (lit 1 0) then accrue_live_at q daily_rate book mid else pure tt

    unfoldable pub accrue_live_pool :
        MakerQuote W → Option (RewardConfig W) → Option (OrderBook W × W) → Act W (Unit {0})
    unfolding end_rewards accrue_live_book
    accrue_live_pool q none book = end_rewards q
    accrue_live_pool q (some pool) book =
        if le pool.daily nil then end_rewards q else accrue_live_book q pool.daily book

    unfoldable pub accrue_live_read : MakerQuote W → QuoteRead W → Act W (Unit {0})
    unfolding accrue_live_pool
    accrue_live_read q r = if r.config_ok then accrue_live_pool q r.pool r.book else pure tt

    unfoldable pub accrue_live_quotes :
        (MakerQuote W → QuoteRead W) → List (MakerQuote W) → Act W (Unit {0})
    unfolding accrue_live_read
    accrue_live_quotes reads [] = pure tt
    accrue_live_quotes reads (q ∷ qs) = do accrue_live_read q (reads q); accrue_live_quotes reads qs

    -- Without an account the call throws at once.
    unfoldable pub accrue_live_with : Option W → (MakerQuote W → QuoteRead W) → Act W (Unit {0})
    unfolding accrue_live_quotes active_quotes
    accrue_live_with none reads desk = (none, desk)
    accrue_live_with (some cash) reads desk =
        accrue_live_quotes reads (active_quotes desk.store.quotes) desk

    unfoldable pub accrue_maker_rewards_live : Api W → Option (BookSource W) → Act W (Unit {0})
    unfolding accrue_live_with read_one
    accrue_maker_rewards_live api source desk =
        accrue_live_with desk.store.cash (read_one api source) desk
