-- ===== src/Engine/AccrueLive/Ways.antt =====
-- The ways through accrue_maker_rewards_live of cpp/src/pmm/engine.cpp for one quote.
use polymarket_live_maker.Prelude.{
  Double, List, Option, arith, either, either_when, fabs, false, ge, gt, if◌then◌else◌, le, lit, lt,
  nil, none, not, some, ◌&&◌, ◌==◌, ◌||◌, ◌≡◌, ◌⊕◌, ◌⊖◌, ◌⊗◌, ◌⊘◌,
}
use polymarket_live_maker.OrderBook.{OrderBook}
use polymarket_live_maker.Engine.Store.{MakerQuote, AccrualUpdate}
use polymarket_live_maker.Engine.Place.{RewardConfig}
use polymarket_live_maker.Engine.Live.{Ack, Call}
use polymarket_live_maker.Engine.Accrue.{QuoteRead, Clock}
use polymarket_live_maker.Engine.Act.{Act, pure}
use polymarket_live_maker.Engine.AccrueLive.{LiveInput, both_legs, wind_down, drift_exit}
use polymarket_live_maker.Engine.AccrueLive.Rounds.{
  live_update, live_reward, end_rewards, keep_quote, accrue_live_at, accrue_live_book,
  accrue_live_pool, accrue_live_read,
}

module _ {W : Type 0} ⦃d : Double W⦄ (submit : List (Call W) → Call W → Option Ack) (crossing : W)
    (clock : Clock W) (input : LiveInput W) where
  -- No fills, and less than one share on each side.
  unfoldable pub IsClear : MakerQuote W → W → Type 0
  IsClear q mid =
      ((both_legs input q mid nil nil).1.count ≡ 0)
      × (ge (fabs q.inventory) (lit 1 0) ≡ false)
      × (ge (fabs q.complement_inventory) (lit 1 0) ≡ false)

  -- With a price a quote is wound down with its fills, or leaves the band while it is clear, or stays.
  at_ways :
      (P : Act W (Unit {0}) → Type 0) (q : MakerQuote W) (rate : W) (book : OrderBook W) (mid : W)
      → ((amount : W) (u : AccrualUpdate W)
          → P (
              wind_down submit q
                (q.inventory ⊕ (both_legs input q mid nil nil).0)
                (q.complement_inventory ⊕ (both_legs input q mid nil nil).1.moved)
                amount
                u
                crossing))
      → (IsClear q mid → (amount : W) (u : AccrualUpdate W) → P (drift_exit submit q amount u))
      → ((amount : W) (u : AccrualUpdate W)
          → P (keep_quote submit crossing clock input q mid book amount u))
      → P (accrue_live_at submit crossing clock input q rate book mid)
  unfolding accrue_live_at IsClear
  at_ways P q rate book mid winds drifts keeps =
      let reward = live_reward clock q rate book mid in
      let legs = both_legs input q mid nil nil in
      let sums = legs.1 in
      let pnl =
        q.inventory ⊗ (mid ⊖ q.last_mid) ⊕ q.complement_inventory ⊗ (q.last_mid ⊖ mid) ⊕ sums.pnl in
      let amount = reward ⊕ pnl in
      let u = live_update clock q (q.accrued_rewards ⊕ reward) sums mid pnl in
      let entry_mid = if gt q.entry_mid nil then q.entry_mid else mid in
      let holds_any =
        ge (fabs q.inventory) (lit 1 0) || ge (fabs q.complement_inventory) (lit 1 0) in
      let drifted = drift_exit submit q amount u in
      let stays = keep_quote submit crossing clock input q mid book amount u in
      let is_away = ge (fabs (mid ⊖ entry_mid)) (q.max_spread_c ⊘ lit 100 0) in
      either_when P (not (sums.count == 0) || holds_any)
        (wind_down submit q (q.inventory ⊕ legs.0) (q.complement_inventory ⊕ sums.moved) amount u
          crossing)
        (if is_away then drifted else stays) (λ e. winds amount u)
        (λ e.
          either P is_away drifted stays
            (drifts (ground arith, ground arith, ground arith) amount u) (keeps amount u))

  book_ways :
      (P : Act W (Unit {0}) → Type 0) (q : MakerQuote W) (rate : W)
      (found : Option (OrderBook W × W))
      → P (pure tt)
      → ((book : OrderBook W) (mid : W)
          → P (accrue_live_at submit crossing clock input q rate book mid))
      → P (accrue_live_book submit crossing clock input q rate found)
  unfolding accrue_live_book
  book_ways P q rate none idle priced = idle
  book_ways P q rate (some (book, mid)) idle priced =
      either P (lt nil mid && lt mid (lit 1 0))
        (accrue_live_at submit crossing clock input q rate book mid) (pure tt) (priced book mid)
        idle

  pool_ways :
      (P : Act W (Unit {0}) → Type 0) (q : MakerQuote W) (pool : Option (RewardConfig W))
      (found : Option (OrderBook W × W))
      → P (pure tt)
      → P (end_rewards submit crossing clock input q)
      → ((rate : W) (book : OrderBook W) (mid : W)
          → P (accrue_live_at submit crossing clock input q rate book mid))
      → P (accrue_live_pool submit crossing clock input q pool found)
  unfolding accrue_live_pool
  pool_ways P q none found idle ends priced = ends
  pool_ways P q (some pool) found idle ends priced =
      either P (le pool.daily nil) (end_rewards submit crossing clock input q)
        (accrue_live_book submit crossing clock input q pool.daily found) ends
        (book_ways P q pool.daily found idle (priced pool.daily))

  -- Nothing, the end of the rewards, or one of the three ways with a price.
  pub read_ways :
      (P : Act W (Unit {0}) → Type 0) (q : MakerQuote W) (r : QuoteRead W)
      → P (pure tt)
      → P (end_rewards submit crossing clock input q)
      → ((mid amount : W) (u : AccrualUpdate W)
          → P (
              wind_down submit q
                (q.inventory ⊕ (both_legs input q mid nil nil).0)
                (q.complement_inventory ⊕ (both_legs input q mid nil nil).1.moved)
                amount
                u
                crossing))
      → ((mid amount : W) (u : AccrualUpdate W) → IsClear q mid → P (drift_exit submit q amount u))
      → ((book : OrderBook W) (mid amount : W) (u : AccrualUpdate W)
          → P (keep_quote submit crossing clock input q mid book amount u))
      → P (accrue_live_read submit crossing clock input q r)
  unfolding accrue_live_read
  read_ways P q r idle ends winds drifts keeps =
      either P r.config_ok (accrue_live_pool submit crossing clock input q r.pool r.book) (pure tt)
        (pool_ways P q r.pool r.book idle ends (λ rate book mid.
          at_ways P q rate book mid (winds mid) (λ c amount u. drifts mid amount u c)
            (keeps book mid)))
        idle
