-- ===== src/OrderBook.antt =====
-- cpp/include/pmm/models.hpp (levels, books, fills) and the pure functions of
-- cpp/src/pmm/orderbook.cpp on the reward band, and those of cpp/include/pmm/round.hpp.
pub mod Fills
pub mod Signals
use polymarket_live_maker.Prelude.{
  Bool, Double, List, fmax, fmin, foldl, ge, gt, if◌then◌else◌, le, lit, lt, nearbyint, neg, nil,
  suc, zero, ℕ, ◌&&◌, ◌||◌, ◌⊕◌, ◌⊖◌, ◌⊗◌, ◌⊘◌,
}

pub record OrderBookLevel (W : Type 0) : Type 0 where
  pub price : W
  pub size : W

pub record OrderBook (W : Type 0) : Type 0 where
  pub bids : List (OrderBookLevel W)
  pub asks : List (OrderBookLevel W)

pub record Fill (W : Type 0) : Type 0 where
  pub price : W
  pub shares : W
  pub cost : W
  pub level : ℕ

pub record FillResult (W : Type 0) : Type 0 where
  pub filled : Bool
  pub avg_price : W
  pub total_cost : W
  pub total_shares : W
  pub fee : W
  pub slippage_bps : W
  pub levels_filled : ℕ
  pub is_partial : Bool
  pub fills : List (Fill W)

module _ {W : Type 0} ⦃d : Double W⦄ where
  -- `f` after `n` rounds of `f *= 10.0`.
  unfoldable pub power_of_ten : ℕ → W
  power_of_ten zero = lit 1 0
  power_of_ten (suc n) = power_of_ten n ⊗ lit 10 0

  unfoldable pub round_to : W → ℕ → W
  unfolding power_of_ten
  round_to x ndigits = nearbyint (x ⊗ power_of_ten ndigits) ⊘ power_of_ten ndigits

  unfoldable pub inband_weight : W → W → W
  inband_weight s_cents max_spread_c =
      if le max_spread_c nil
      then nil
      else if lt s_cents (neg (lit 1 9)) || gt s_cents (max_spread_c ⊕ lit 1 9)
      then nil
      else ((max_spread_c ⊖ s_cents) ⊘ max_spread_c) ⊗ ((max_spread_c ⊖ s_cents) ⊘ max_spread_c)

  unfoldable pub binding_qmin : W → W → W → W
  binding_qmin bid_score ask_score mid =
      let lo = fmin bid_score ask_score in
      if ge mid (lit 10 2) && le mid (lit 90 2)
      then fmax lo (fmax bid_score ask_score ⊘ lit 3 0)
      else lo

  unfoldable pub bid_score : W → W → List (OrderBookLevel W) → W
  unfolding inband_weight
  bid_score mid max_spread_c =
      foldl (λ acc lvl. acc ⊕ lvl.size ⊗ inband_weight ((mid ⊖ lvl.price) ⊗ lit 100 0) max_spread_c)
        nil

  unfoldable pub ask_score : W → W → List (OrderBookLevel W) → W
  unfolding inband_weight
  ask_score mid max_spread_c =
      foldl (λ acc lvl. acc ⊕ lvl.size ⊗ inband_weight ((lvl.price ⊖ mid) ⊗ lit 100 0) max_spread_c)
        nil

  unfoldable pub book_inband_qmin : OrderBook W → W → W → W
  unfolding bid_score ask_score binding_qmin
  book_inband_qmin book mid max_spread_c =
      binding_qmin (bid_score mid max_spread_c book.bids) (ask_score mid max_spread_c book.asks) mid

  unfoldable pub maker_quote_score : W → W → W → W
  unfolding inband_weight
  maker_quote_score size half_spread_c max_spread_c =
      size ⊗ inband_weight half_spread_c max_spread_c

  unfoldable pub maker_reward_share : W → W → W → W → W
  unfolding maker_quote_score
  maker_reward_share size half_spread_c max_spread_c existing_qmin =
      let mine = maker_quote_score size half_spread_c max_spread_c in
      let denom = mine ⊕ existing_qmin in if gt denom nil then mine ⊘ denom else nil

  unfoldable pub committed_capital : W → W → W
  committed_capital size half_spread_c =
      let cap = size ⊗ (lit 1 0 ⊖ lit 2 0 ⊗ (half_spread_c ⊘ lit 100 0)) in
      if gt cap nil then cap else nil
