-- ===== src/Maker.antt =====
-- cpp/include/pmm/maker_live.hpp and cpp/src/pmm/maker_live.cpp: the quotes and the bot.
pub mod Bot
pub mod Steps
pub mod Runs
use polymarket_live_maker.Prelude.{
  Bool, Bytes, Double, [], codes, fabs, fmax, fmin, ge, gt, if◌then◌else◌, inl, inr, le, lit, lt,
  nearbyint, nil, not, ◌&&◌, ◌||◌, ◌⊎◌, ◌⊕◌, ◌⊖◌, ◌⊗◌, ◌⊘◌,
}
use polymarket_live_maker.OrderBook.{round_to}

pub record Order (W : Type 0) : Type 0 where
  pub side : Bytes
  pub price : W
  pub size : W
  pub token_id : Bytes

-- The two `invalid_argument`s, without their texts.
pub data QuoteError : Type 0 where
  mid_out_of_range half_spread_out_of_range : QuoteError

-- The two orders of the vector: the bid and the ask.
abbrev pub Quotes : Type 0 → Type 0
Quotes V = QuoteError ⊎ (Order V × Order V)

module _ {W : Type 0} ⦃d : Double W⦄ where
  unfoldable pub compute_two_sided_quotes : W → W → W → W → W → W → Quotes W
  compute_two_sided_quotes mid half_spread_c size tick max_spread_c skew_ticks =
      let offset = half_spread_c ⊘ lit 100 0 in
      let shift = skew_ticks ⊗ tick in
      let bid = fmax tick (nearbyint ((mid ⊖ offset ⊖ shift) ⊘ tick) ⊗ tick) in
      let ask = fmin (lit 1 0 ⊖ tick) (nearbyint ((mid ⊕ offset ⊖ shift) ⊘ tick) ⊗ tick) in
      if not (lt nil mid && lt mid (lit 1 0))
      then inl mid_out_of_range
      else if le half_spread_c nil || gt half_spread_c max_spread_c
      then inl half_spread_out_of_range
      else inr (
        record { side = codes "BUY"; price = round_to bid 4; size = size; token_id = [] },
        record { side = codes "SELL"; price = round_to ask 4; size = size; token_id = [] },
      )

  abbrev to_tick : W → W → W
  to_tick tick p = nearbyint (p ⊘ tick) ⊗ tick

  -- The bid of the two-token quotes.
  unfoldable pub yes_bid : W → W → W → W → W → W
  yes_bid tick target behind best_bid deepest =
      let bid = to_tick tick target in
      fmax (fmax (if gt best_bid nil then fmin bid behind else bid) (to_tick tick deepest)) tick

  unfoldable pub yes_ask : W → W → W → W → W → W
  yes_ask tick target ahead best_ask highest =
      let ask = to_tick tick target in
      fmin (fmin (if gt best_ask nil then fmax ask ahead else ask) (to_tick tick highest))
        (lit 1 0 ⊖ tick)

  unfoldable pub compute_two_sided_quotes_yes_no :
      W → W → W → W → W → Bytes → Bytes → W → W → W → W → Quotes W
  compute_two_sided_quotes_yes_no mid half_spread_c size tick max_spread_c yes_token_id no_token_id
        best_bid best_ask skew_ticks center_shift =
      let v = max_spread_c in
      let shift = skew_ticks ⊗ tick in
      let center = mid ⊕ center_shift in
      let floor_c = if le tick (lit 11 4) then lit 2 0 ⊗ tick ⊗ lit 100 0 else lit 15 2 ⊗ v in
      let s_target = fmin (fmax half_spread_c floor_c) (lit 55 2 ⊗ v) ⊘ lit 100 0 in
      let edge = lit 55 2 ⊗ v ⊘ lit 100 0 in
      let bid = yes_bid tick (center ⊖ s_target ⊖ shift) (best_bid ⊖ tick) best_bid (mid ⊖ edge) in
      let ask = yes_ask tick (center ⊕ s_target ⊖ shift) (best_ask ⊕ tick) best_ask (mid ⊕ edge) in
      let no_price =
        fmin (lit 1 0 ⊖ tick) (fmax tick (round_to (to_tick tick (lit 1 0 ⊖ ask)) 4)) in
      if not (lt nil mid && lt mid (lit 1 0))
      then inl mid_out_of_range
      else inr (
        record { side = codes "BUY"; price = round_to bid 4; size = size; token_id = yes_token_id },
        record { side = codes "BUY"; price = no_price; size = size; token_id = no_token_id },
      )

  unfoldable pub plan_requote : W → W → W → Bool
  plan_requote mid_prev mid_now tick = ge (fabs (mid_now ⊖ mid_prev)) tick
