-- ===== src/Engine/Store.antt =====
-- The tables of cpp/src/pmm/db.cpp that the engine's quotes use: the account and `maker_quotes`. SQLite
-- is left out; a row is a member of a list, in the order of the ids, and a new id is above all before it.
use polymarket_live_maker.Prelude.{
  Bool, Bytes, List, Option, [], false, if◌then◌else◌, none, some, suc, true, ℕ, ◌++◌, ◌==◌, ◌∷◌,
}

pub data QuoteStatus : Type 0 where
  active cancelled : QuoteStatus

-- A row, but for `created_at`.
pub record MakerQuote (W : Type 0) : Type 0 where
  pub id : ℕ
  pub market_slug : Bytes
  pub market_condition_id : Bytes
  pub outcome : Bytes
  pub token_id : Bytes
  pub complement_token_id : Bytes
  pub size : W
  pub half_spread_c : W
  pub max_spread_c : W
  pub min_size : W
  pub daily_rate : W
  pub tick : W
  pub cancel_efficiency : W
  pub max_inventory : W
  pub skew_strength : W
  pub inventory : W
  pub complement_inventory : W
  pub inventory_pnl : W
  pub entry_mid : W
  pub committed_capital : W
  pub accrued_rewards : W
  pub realized_bleed : W
  pub fills : ℕ
  pub status : QuoteStatus
  pub last_mid : W
  pub last_accrued_at : Bytes

pub record AccrualUpdate (W : Type 0) : Type 0 where
  pub accrued_rewards : W
  pub realized_bleed : W
  pub fills : ℕ
  pub last_mid : W
  pub last_accrued_at : Bytes
  pub inventory : W
  pub complement_inventory : W
  pub inventory_pnl : W

-- The cash of the account, if there is one.
pub record Store (W : Type 0) : Type 0 where
  pub cash : Option W
  pub quotes : List (MakerQuote W)
  pub last_id : ℕ

-- `status == "active"`.
abbrev pub is_active_status : QuoteStatus → Bool
is_active_status active = true
is_active_status cancelled = false

abbrev pub is_active : {W : Type 0} → MakerQuote W → Bool
is_active q = is_active_status q.status

module _ {W : Type 0} where
  -- An UPDATE without a row changes nothing.
  unfoldable pub update_cash : W → Store W → Store W
  update_cash c st = record st { cash = elim st.cash [ none ↦ none | some old ↦ some c ] }

  unfoldable pub active_quotes : List (MakerQuote W) → List (MakerQuote W)
  active_quotes [] = []
  active_quotes (q ∷ qs) = let rest = active_quotes qs in if is_active q then q ∷ rest else rest

  unfoldable pub get_maker_quote : ℕ → List (MakerQuote W) → Option (MakerQuote W)
  get_maker_quote k [] = none
  get_maker_quote k (q ∷ qs) = let rest = get_maker_quote k qs in if q.id == k then some q else rest

  -- UPDATE ... WHERE id = ?
  unfoldable pub update_where :
      (MakerQuote W → MakerQuote W) → ℕ → List (MakerQuote W) → List (MakerQuote W)
  update_where change k [] = []
  update_where change k (q ∷ qs) = (if q.id == k then change q else q) ∷ update_where change k qs

  -- INSERT: the columns that it does not name have their defaults, and the id is the next one.
  unfoldable pub create_maker_quote : MakerQuote W → Store W → MakerQuote W × Store W
  create_maker_quote input st =
      let q = record input { id = suc st.last_id } in
      (q, record st { quotes = st.quotes ++ (q ∷ []); last_id = suc st.last_id })

  unfoldable pub cancel_found :
      ℕ → Option (MakerQuote W) → Store W → Option (MakerQuote W) × Store W
  unfolding get_maker_quote update_where
  cancel_found k none st = (none, st)
  cancel_found k (some q) st =
      let left = update_where (λ r. record r { status = cancelled }) k st.quotes in
      if is_active q then (get_maker_quote k left, record st { quotes = left }) else (none, st)

  unfoldable pub cancel_row : ℕ → Store W → Option (MakerQuote W) × Store W
  unfolding cancel_found
  cancel_row k st = cancel_found k (get_maker_quote k st.quotes) st

  unfoldable pub accrued : AccrualUpdate W → MakerQuote W → MakerQuote W
  accrued u q = record q {
    accrued_rewards = u.accrued_rewards;
    realized_bleed = u.realized_bleed;
    fills = u.fills;
    last_mid = u.last_mid;
    last_accrued_at = u.last_accrued_at;
    inventory = u.inventory;
    complement_inventory = u.complement_inventory;
    inventory_pnl = u.inventory_pnl;
  }

  -- The row afterwards, which the code dereferences: `none` where there is no row.
  unfoldable pub update_maker_quote_accrual :
      ℕ → AccrualUpdate W → Store W → Option (MakerQuote W) × Store W
  unfolding accrued get_maker_quote update_where
  update_maker_quote_accrual k u st =
      let left = update_where (accrued u) k st.quotes in
      (get_maker_quote k left, record st { quotes = left })
