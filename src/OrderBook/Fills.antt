-- ===== src/OrderBook/Fills.antt =====
-- `calculate_fee`, `simulate_buy_fill` and `simulate_sell_fill` of cpp/src/pmm/orderbook.cpp.
-- `std::sort` is a parameter.
use polymarket_live_maker.Prelude.{
  Bool, Bytes, Double, List, Option, [], codes, false, fmax, fmin, foldl, gt, if◌then◌else◌,
  is_empty, le, length, lit, lt, nil, none, not, same_str, some, suc, ℕ, ◌&&◌, ◌==◌, ◌||◌, ◌∷◌, ◌⊕◌,
  ◌⊖◌, ◌⊗◌, ◌⊘◌,
}
use polymarket_live_maker.OrderBook.{OrderBookLevel, OrderBook, Fill, FillResult}

module _ {W : Type 0} ⦃d : Double W⦄ where
  unfoldable pub empty_fill_result : FillResult W
  empty_fill_result = record {
    filled = false;
    avg_price = nil;
    total_cost = nil;
    total_shares = nil;
    fee = nil;
    slippage_bps = nil;
    levels_filled = 0;
    is_partial = false;
    fills = [];
  }

  unfoldable pub midpoint : OrderBook W → Option W
  midpoint book = elim book.bids [
    | [] ↦ none
    | b ∷ bids ↦ elim book.asks [
      | [] ↦ none
      | a ∷ asks ↦ some (
          (foldl (λ best lvl. fmax best lvl.price) b.price (b ∷ bids)
            ⊕ foldl (λ best lvl. fmin best lvl.price) a.price (a ∷ asks))
          ⊘ lit 2 0)
    ]
  ]

  -- The rate is a count of basis points.
  unfoldable pub calculate_fee : ℕ → W → W → W
  calculate_fee fee_rate_bps price size =
      if fee_rate_bps == 0
      then nil
      else let fee = (lit fee_rate_bps 0 ⊘ lit 10000 0) ⊗ fmin price (lit 1 0 ⊖ price) ⊗ size in
        if gt fee nil then fmax fee (lit 1 4) else fee

  -- Whether a level lies beyond the limit: above it for a buy, below it for a sale.
  abbrev pub beyond : Option W → W → Bool
  beyond none price = false
  beyond (some limit) price = gt price limit

  abbrev pub short_of : Option W → W → Bool
  short_of none price = false
  short_of (some limit) price = lt price limit

  -- The walk over the asks: the fills, and what remains.
  unfoldable pub walk_asks : Option W → ℕ → W → List (OrderBookLevel W) → List (Fill W) × W
  walk_asks max_price idx remaining [] = ([], remaining)
  walk_asks max_price idx remaining (lvl ∷ levels) =
      let full = lvl.size ⊗ lvl.price in
      let rest = walk_asks max_price (suc idx) (remaining ⊖ full) levels in
      if le remaining nil || beyond max_price lvl.price
      then ([], remaining)
      else if le full remaining
      then (
        record { price = lvl.price; shares = lvl.size; cost = full; level = suc idx } ∷ rest.0,
        rest.1,
      )
      else (
        record {
          price = lvl.price;
          shares = remaining ⊘ lvl.price;
          cost = remaining;
          level = suc idx;
        }
            ∷ [],
        nil,
      )

  unfoldable pub walk_bids : Option W → ℕ → W → List (OrderBookLevel W) → List (Fill W) × W
  walk_bids min_price idx remaining [] = ([], remaining)
  walk_bids min_price idx remaining (lvl ∷ levels) =
      let rest = walk_bids min_price (suc idx) (remaining ⊖ lvl.size) levels in
      if le remaining nil || short_of min_price lvl.price
      then ([], remaining)
      else if le lvl.size remaining
      then (
        record {
          price = lvl.price;
          shares = lvl.size;
          cost = lvl.size ⊗ lvl.price;
          level = suc idx;
        }
            ∷ rest.0,
        rest.1,
      )
      else (
        record {
          price = lvl.price;
          shares = remaining;
          cost = remaining ⊗ lvl.price;
          level = suc idx;
        }
            ∷ [],
        nil,
      )

  unfoldable pub slippage : Option W → W → W
  slippage none avg_price = nil
  slippage (some mid) avg_price = if gt mid nil then (avg_price ⊖ mid) ⊘ mid ⊗ lit 10000 0 else nil

  -- The end of both functions; `fee_base` picks the sum that the fee is taken from.
  unfoldable pub settle : OrderBook W → ℕ → Bytes → (W → W → W) → List (Fill W) × W → FillResult W
  unfolding slippage midpoint calculate_fee empty_fill_result
  settle book fee_rate_bps order_type fee_base (fills, remaining) =
      let total_cost = foldl (λ acc f. acc ⊕ f.cost) nil fills in
      let total_shares = foldl (λ acc f. acc ⊕ f.shares) nil fills in
      let is_partial = gt remaining nil in
      let avg_price = if gt total_shares nil then total_cost ⊘ total_shares else nil in
      if is_empty fills
      then empty_fill_result
      else if same_str order_type (codes "fok") && is_partial
      then empty_fill_result
      else record {
        filled = not is_partial;
        avg_price = avg_price;
        total_cost = total_cost;
        total_shares = total_shares;
        fee = calculate_fee fee_rate_bps avg_price (fee_base total_cost total_shares);
        slippage_bps = slippage (midpoint book) avg_price;
        levels_filled = length fills;
        is_partial = is_partial;
        fills = fills;
      }

  -- `sort less levels`: the levels, smallest first.
  module _
      (sort : (OrderBookLevel W → OrderBookLevel W → Bool)
        → List (OrderBookLevel W)
        → List (OrderBookLevel W)) where
    abbrev pub sorted_asks : OrderBook W → List (OrderBookLevel W)
    sorted_asks book = sort (λ a b. lt a.price b.price) book.asks

    abbrev pub sorted_bids : OrderBook W → List (OrderBookLevel W)
    sorted_bids book = sort (λ a b. gt a.price b.price) book.bids

    unfoldable pub simulate_buy_fill : OrderBook W → W → ℕ → Bytes → Option W → FillResult W
    unfolding settle empty_fill_result
    simulate_buy_fill book amount_usd fee_rate_bps order_type max_price =
        if is_empty book.asks
        then empty_fill_result
        else settle book fee_rate_bps order_type (λ cost shares. cost)
            (walk_asks max_price 0 amount_usd (sorted_asks book))

    unfoldable pub simulate_sell_fill : OrderBook W → W → ℕ → Bytes → Option W → FillResult W
    unfolding settle empty_fill_result
    simulate_sell_fill book shares fee_rate_bps order_type min_price =
        if is_empty book.bids
        then empty_fill_result
        else settle book fee_rate_bps order_type (λ cost shares. shares)
            (walk_bids min_price 0 shares (sorted_bids book))
