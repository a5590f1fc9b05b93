-- ===== src/Engine/Accrue.antt =====
-- accrue_maker_rewards of cpp/src/pmm/engine.cpp, with the reads before it. The report of each quote is
-- left out; the conversions of time stamps, which are sscanf and timegm, are a parameter.
use polymarket_live_maker.Prelude.{
  Bool, Bytes, Double, List, Option, [], fabs, false, fmax, ge, gt, if◌then◌else◌, le, lit, lt, nil,
  none, some, true, ◌&&◌, ◌+◌, ◌>>=◌, ◌∷◌, ◌⊕◌, ◌⊖◌, ◌⊗◌, ◌⊘◌,
}
use polymarket_live_maker.OrderBook.{OrderBook, book_inband_qmin, maker_reward_share}
use polymarket_live_maker.OrderBook.Signals.{reward_accrual, maker_fill}
use polymarket_live_maker.Engine.Store.{
  MakerQuote, AccrualUpdate, Store, update_cash, active_quotes, cancel_row,
  update_maker_quote_accrual,
}
use polymarket_live_maker.Engine.Place.{RewardConfig, Api}

pub record QuoteRead (W : Type 0) : Type 0 where
  pub config_ok : Bool
  pub pool : Option (RewardConfig W)
  -- The book and the price, where they could be read.
  pub book : Option (OrderBook W × W)

-- The channel of books, where it is connected.
pub record BookSource (W : Type 0) : Type 0 where
  pub get_book : Bytes → Option (OrderBook W)
  pub get_midpoint : Bytes → W

pub record Clock (W : Type 0) : Type 0 where
  pub now : W
  pub iso_to_unix : Bytes → W
  pub unix_to_iso : W → Bytes

module _ {W : Type 0} ⦃d : Double W⦄ where
  abbrev is_price : W → Bool
  is_price mid = lt nil mid && lt mid (lit 1 0)

  -- What the channel has, if it is usable.
  unfoldable pub live_book : Option (BookSource W) → Bytes → Option (OrderBook W × W)
  live_book none token = none
  live_book (some source) token = elim (source.get_book token) [
    | none ↦ none
    | some book ↦
        if is_price (source.get_midpoint token)
        then some (book, source.get_midpoint token)
        else none
  ]

  unfoldable pub rest_book : Api W → Bytes → Option (OrderBook W × W)
  rest_book api token =
      api.get_order_book token >>= λ book. api.get_midpoint token >>= λ mid. some (book, mid)

  unfoldable pub read_book : Api W → Option (BookSource W) → Bytes → Option (OrderBook W × W)
  unfolding live_book rest_book
  read_book api source token = elim (live_book source token) [
    | none ↦ rest_book api token
    | some found ↦ some found
  ]

  -- Made on several threads, and all of them before the first write.
  unfoldable pub read_one : Api W → Option (BookSource W) → MakerQuote W → QuoteRead W
  unfolding read_book
  read_one api source q = elim (api.get_reward_config q.market_condition_id) [
    | none ↦ record { config_ok = false; pool = none; book = none }
    | some none ↦ record { config_ok = true; pool = none; book = none }
    | some (some pool) ↦ record {
      config_ok = true;
      pool = some pool;
      book = if le pool.daily nil then none else read_book api source q.token_id;
    }
  ]

  -- A change of the cash, where there is an account.
  unfoldable pub with_account : Option W → (W → Store W) → Store W → Store W
  with_account none change st = st
  with_account (some cash) change st = change cash

  unfoldable pub credit_maker : W → Store W → Store W
  unfolding update_cash with_account
  credit_maker amount st = with_account st.cash (λ cash. update_cash (cash ⊕ amount) st) st

  unfoldable pub exit_maker_quote : MakerQuote W → W → Store W → Store W
  unfolding cancel_row update_cash with_account
  exit_maker_quote q crossing_cost st =
      with_account st.cash
        (λ cash.
          (cancel_row q.id
            (update_cash (cash ⊕ q.committed_capital ⊖ fmax nil crossing_cost) st)).1)
        st

  -- What one quote has earned and filled; `complement_inventory` has its default.
  unfoldable pub accrual_of : Clock W → MakerQuote W → W → W → W × W → AccrualUpdate W
  accrual_of clock q mid reward (d_inv, fill_loss) =
      let pnl_delta = q.inventory ⊗ (mid ⊖ q.last_mid) ⊖ fill_loss in
      record {
        accrued_rewards = q.accrued_rewards ⊕ reward;
        realized_bleed = q.realized_bleed ⊕ fill_loss;
        fills = q.fills + (if le d_inv nil && ge d_inv nil then 0 else 1);
        last_mid = mid;
        last_accrued_at = clock.unix_to_iso clock.now;
        inventory = q.inventory ⊕ d_inv;
        complement_inventory = nil;
        inventory_pnl = q.inventory_pnl ⊕ pnl_delta;
      }

  unfoldable pub reward_of : Clock W → MakerQuote W → W → OrderBook W → W → W
  reward_of clock q daily_rate book mid =
      let seconds = fmax nil (clock.now ⊖ clock.iso_to_unix q.last_accrued_at) in
      let share =
        maker_reward_share q.size q.half_spread_c q.max_spread_c
          (book_inband_qmin book mid q.max_spread_c) in
      reward_accrual share daily_rate seconds

  unfoldable pub fill_of_quote : MakerQuote W → W → W × W
  fill_of_quote q mid =
      let cap = if gt q.max_inventory nil then q.max_inventory else lit 4 0 ⊗ q.size in
      maker_fill q.last_mid mid q.inventory q.size q.half_spread_c q.skew_strength
        q.cancel_efficiency cap

  module _ (crossing : W) (clock : Clock W) where
    unfoldable pub cost_of : W → W
    cost_of inventory = crossing ⊘ lit 100 0 ⊗ fabs inventory

    -- `none` would be the read of a row that is not there.
    unfoldable pub close_drifted : Option (MakerQuote W) × Store W → W → Store W
    unfolding exit_maker_quote cost_of
    close_drifted (none, st) inventory = st
    close_drifted (some q, st) inventory = exit_maker_quote q (cost_of inventory) st

    unfoldable pub accrue_at : MakerQuote W → W → OrderBook W → W → Store W → Store W
    unfolding credit_maker accrual_of reward_of fill_of_quote update_maker_quote_accrual
        close_drifted
    accrue_at q daily_rate book mid st =
        let reward = reward_of clock q daily_rate book mid in
        let fill = fill_of_quote q mid in
        let u = accrual_of clock q mid reward fill in
        let pnl_delta = q.inventory ⊗ (mid ⊖ q.last_mid) ⊖ fill.1 in
        let paid = credit_maker (reward ⊕ pnl_delta) st in
        let entry_mid = if gt q.entry_mid nil then q.entry_mid else mid in
        if ge (fabs (mid ⊖ entry_mid)) (q.max_spread_c ⊘ lit 100 0)
        then close_drifted (update_maker_quote_accrual q.id (record u { inventory = nil }) paid)
            u.inventory
        else (update_maker_quote_accrual q.id u paid).1

    unfoldable pub accrue_book : MakerQuote W → W → Option (OrderBook W × W) → Store W → Store W
    unfolding accrue_at
    accrue_book q daily_rate none st = st
    accrue_book q daily_rate (some (book, mid)) st =
        if is_price mid then accrue_at q daily_rate book mid st else st

    -- A pool that is gone, or pays nothing, ends the quote.
    unfoldable pub accrue_pool :
        MakerQuote W → Option (RewardConfig W) → Option (OrderBook W × W) → Store W → Store W
    unfolding accrue_book exit_maker_quote cost_of
    accrue_pool q none book st = exit_maker_quote q (cost_of q.inventory) st
    accrue_pool q (some pool) book st =
        if le pool.daily nil
        then exit_maker_quote q (cost_of q.inventory) st
        else accrue_book q pool.daily book st

    unfoldable pub accrue_read : MakerQuote W → QuoteRead W → Store W → Store W
    unfolding accrue_pool
    accrue_read q r st = if r.config_ok then accrue_pool q r.pool r.book st else st

    -- The quotes that were active at the start, in order.
    unfoldable pub accrue_quotes :
        (MakerQuote W → QuoteRead W) → List (MakerQuote W) → Store W → Store W
    unfolding accrue_read
    accrue_quotes reads [] st = st
    accrue_quotes reads (q ∷ qs) st = accrue_quotes reads qs (accrue_read q (reads q) st)

    unfoldable pub accrue_maker_rewards : Api W → Option (BookSource W) → Store W → Store W
    unfolding accrue_quotes read_one active_quotes with_account
    accrue_maker_rewards api source st =
        with_account st.cash
          (λ cash. accrue_quotes (read_one api source) (active_quotes st.quotes) st) st
