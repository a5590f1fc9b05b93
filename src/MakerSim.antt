-- ===== src/MakerSim.antt =====
-- cpp/src/pmm/maker_sim.cpp: the replay of a maker's rewards over a path of prices. `std::sort` and the
-- client of the exchange are parameters; the experiment over the pools, which builds JSON, is left out.
pub mod Sound
use polymarket_live_maker.Prelude.{
  Double, List, Option, [], fmax, fmin, ge, get_or, gt, if◌then◌else◌, inl, inr, le, length, lit,
  lt, nil, none, not, some, ℕ, ◌&&◌, ◌+◌, ◌/◌, ◌==◌, ◌∷◌, ◌⊎◌, ◌⊕◌, ◌⊖◌, ◌⊗◌, ◌⊘◌,
}
use polymarket_live_maker.OrderBook.{
  OrderBook, OrderBookLevel, book_inband_qmin, maker_reward_share,
}
use polymarket_live_maker.OrderBook.Signals.{adverse_bleed, reward_accrual}

pub record SimParams (W : Type 0) : Type 0 where
  pub daily : W
  pub share : W
  pub tick : W
  pub min_size : W
  pub dt_seconds : W
  pub cancel_efficiency : W
  pub requote_downtime_s : W
  pub unwind_cost_ticks : W

pub record SimResult (W : Type 0) : Type 0 where
  pub steps : ℕ
  pub reward_income : W
  pub adverse_bleed_total : W
  pub unwind_cost : W
  pub net : W
  pub pickoffs : ℕ
  pub pickoff_rate : W
  pub capital : W
  pub net_annualized_pct : W

-- The three `invalid_argument`s, without their texts.
pub data SimError : Type 0 where
  bad_cancel_efficiency bad_downtime bad_unwind_cost : SimError

-- What the loop adds up.
pub record SimSums (W : Type 0) : Type 0 where
  pub bleed_total : W
  pub unwind_total : W
  pub pickoffs : ℕ

pub record PricePoint (W : Type 0) : Type 0 where
  pub p : W
  pub t : W

-- `max(0, size - 1)`.
abbrev pub steps_of : {A : Type 0} → List A → ℕ
steps_of [] = 0
steps_of (x ∷ xs) = length xs

module _ {W : Type 0} ⦃d : Double W⦄ where
  unfoldable pub sim_step : SimParams W → W → W → SimSums W → SimSums W
  sim_step p prev now sums =
      let half_spread_c = p.tick ⊗ lit 100 0 in
      let fill_frac = lit 1 0 ⊖ p.cancel_efficiency in
      let unwind_per_fill = p.min_size ⊗ p.unwind_cost_ticks ⊗ p.tick in
      let raw = adverse_bleed p.min_size half_spread_c prev now nil in
      if gt raw nil
      then record {
        bleed_total = sums.bleed_total ⊕ raw ⊗ fill_frac;
        unwind_total = sums.unwind_total ⊕ unwind_per_fill ⊗ fill_frac;
        pickoffs = sums.pickoffs + 1;
      }
      else sums

  -- The steps after a price.
  unfoldable pub sim_loop : SimParams W → W → List W → SimSums W → SimSums W
  unfolding sim_step
  sim_loop p prev [] sums = sums
  sim_loop p prev (now ∷ rest) sums = sim_loop p now rest (sim_step p prev now sums)

  unfoldable pub sim_sums : SimParams W → List W → SimSums W
  unfolding sim_loop
  sim_sums p [] = record { bleed_total = nil; unwind_total = nil; pickoffs = 0 }
  sim_sums p (first ∷ rest) =
      sim_loop p first rest (record { bleed_total = nil; unwind_total = nil; pickoffs = 0 })

  unfoldable pub sim_result : SimParams W → ℕ → SimSums W → SimResult W
  unfolding reward_accrual
  sim_result p n_steps sums =
      let gross_seconds = p.dt_seconds ⊗ lit n_steps 0 in
      let downtime = fmin gross_seconds (lit sums.pickoffs 0 ⊗ p.requote_downtime_s) in
      let reward_income = reward_accrual p.share p.daily (gross_seconds ⊖ downtime) in
      let net = reward_income ⊖ sums.bleed_total ⊖ sums.unwind_total in
      let capital = fmax p.min_size (lit 1 9) in
      let horizon_seconds = fmax gross_seconds (lit 1 9) in
      let net_per_day = net ⊗ lit 86400 0 ⊘ horizon_seconds in
      record {
        steps = n_steps;
        reward_income = reward_income;
        adverse_bleed_total = sums.bleed_total;
        unwind_cost = sums.unwind_total;
        net = net;
        pickoffs = sums.pickoffs;
        pickoff_rate = if n_steps == 0 then nil else lit sums.pickoffs 0 ⊘ lit n_steps 0;
        capital = capital;
        net_annualized_pct = net_per_day ⊗ lit 365 0 ⊘ capital ⊗ lit 100 0;
      }

  unfoldable pub simulate_pool : List W → SimParams W → SimError ⊎ SimResult W
  unfolding sim_sums sim_result
  simulate_pool price_path p =
      if not (ge p.cancel_efficiency nil && le p.cancel_efficiency (lit 1 0))
      then inl bad_cancel_efficiency
      else if lt p.requote_downtime_s nil
      then inl bad_downtime
      else if lt p.unwind_cost_ticks nil
      then inl bad_unwind_cost
      else inr (sim_result p (steps_of price_path) (sim_sums p price_path))

  unfoldable pub best_price : (W → W → W) → W → List (OrderBookLevel W) → W
  best_price pick best [] = best
  best_price pick best (l ∷ ls) = best_price pick (pick best l.price) ls

  -- Of the book that was read: the share of its binding side, from the pool's least size and tick.
  unfoldable pub live_pool_share : W → W → W → OrderBook W → Option W
  unfolding best_price
  live_pool_share min_size tick max_spread book = elim book.bids [
    | [] ↦ none
    | b ∷ bs ↦ elim book.asks [
      | [] ↦ none
      | a ∷ others ↦
          let best_bid = best_price fmax b.price (b ∷ bs) in
          let best_ask = best_price fmin a.price (a ∷ others) in
          let mid = (best_bid ⊕ best_ask) ⊘ lit 2 0 in
          some (
            maker_reward_share min_size (tick ⊗ lit 100 0) max_spread
              (book_inband_qmin book mid max_spread))
    ]
  ]

  unfoldable pub deltas : PricePoint W → List (PricePoint W) → List W
  deltas prev [] = []
  deltas prev (x ∷ xs) =
      let rest = deltas x xs in if gt x.t prev.t then (x.t ⊖ prev.t) ∷ rest else rest

  unfoldable pub median_delta : (List W → List W) → List W → W
  median_delta sort [] = lit 3600 0
  median_delta sort (x ∷ xs) = get_or (sort (x ∷ xs)) (length (x ∷ xs) / 2) nil

  unfoldable pub history_dt_seconds : (List W → List W) → List (PricePoint W) → W
  unfolding deltas median_delta
  history_dt_seconds sort [] = median_delta sort []
  history_dt_seconds sort (x ∷ xs) = median_delta sort (deltas x xs)

  unfoldable pub path_from_history : List (PricePoint W) → List W
  path_from_history [] = []
  path_from_history (x ∷ xs) = x.p ∷ path_from_history xs
