-- ===== src/OrderBook/Signals.antt =====
-- The queue and the fill model of cpp/src/pmm/orderbook.cpp.
use polymarket_live_maker.Prelude.{
  Bool, Bytes, Double, List, Option, [], codes, fabs, false, fmax, fmin, foldl, ge, gt,
  if◌then◌else◌, le, leb, lit, lt, map, neg, nil, none, not, same_str, some, true, ◌&&◌, ◌+◌, ◌-◌,
  ◌||◌, ◌∷◌, ◌⊕◌, ◌⊖◌, ◌⊗◌, ◌⊘◌,
}
use polymarket_live_maker.OrderBook.{OrderBook, OrderBookLevel, bid_score, ask_score}

pub record BookSignals (W : Type 0) : Type 0 where
  pub micro_price : W
  pub obi1 : W
  pub obi_band : W
  pub depth : W
  pub valid : Bool

unfoldable pub to_lower : Bytes → Bytes
to_lower = map (λ c. if leb b'A' c && leb c b'Z' then c + (b'a' - b'A') else c)

module _ {W : Type 0} ⦃d : Double W⦄ where
  -- The first level of a positive size that no later one beats.
  unfoldable pub best_level :
      (W → W → Bool)
      → Option (OrderBookLevel W)
      → List (OrderBookLevel W)
      → Option (OrderBookLevel W)
  best_level beats best [] = best
  best_level beats best (l ∷ levels) =
      best_level beats
        (elim best [
          | none ↦ if gt l.size nil then some l else none
          | some b ↦ if gt l.size nil && beats l.price b.price then some l else some b
        ])
        levels

  unfoldable pub signals_of :
      OrderBook W → W → W → OrderBookLevel W → OrderBookLevel W → BookSignals W
  unfolding bid_score ask_score
  signals_of book mid max_spread_c bb ba =
      let bids = bid_score mid max_spread_c book.bids in
      let asks = ask_score mid max_spread_c book.asks in
      let depth = bids ⊕ asks in
      record {
        micro_price =
            if gt (ba.size ⊕ bb.size) nil
            then (bb.price ⊗ ba.size ⊕ ba.price ⊗ bb.size) ⊘ (ba.size ⊕ bb.size)
            else mid;
        obi1 =
            if gt (bb.size ⊕ ba.size) nil then (bb.size ⊖ ba.size) ⊘ (bb.size ⊕ ba.size) else nil;
        obi_band = if gt depth nil then (bids ⊖ asks) ⊘ depth else nil;
        depth = depth;
        valid = true;
      }

  unfoldable pub compute_book_signals : OrderBook W → W → W → BookSignals W
  unfolding signals_of best_level
  compute_book_signals book mid max_spread_c =
      let unset : BookSignals W = record {
        micro_price = mid;
        obi1 = nil;
        obi_band = nil;
        depth = nil;
        valid = false;
      } in
      elim (best_level gt none book.bids) [
        | none ↦ unset
        | some bb ↦ elim (best_level lt none book.asks) [
          | none ↦ unset
          | some ba ↦ signals_of book mid max_spread_c bb ba
        ]
      ]

  unfoldable pub mu_hat : BookSignals W → W → W → W → W
  mu_hat sig mid s_cents lambda =
      let mu = lambda ⊗ ((sig.micro_price ⊖ mid) ⊗ lit 100 0) in
      let capped = if gt mu s_cents then s_cents else mu in
      if not sig.valid then nil else if lt capped (neg s_cents) then neg s_cents else capped

  unfoldable pub depth_ahead : OrderBook W → W → Bytes → W × W
  unfolding to_lower
  depth_ahead book price side =
      let is_bid =
        same_str (to_lower side) (codes "bid") || same_str (to_lower side) (codes "buy") in
      foldl
        (λ (acc : W × W) (lvl : OrderBookLevel W).
          if le (fabs (lvl.price ⊖ price)) (lit 1 9)
          then (acc.0, acc.1 ⊕ lvl.size)
          else if (if is_bid then gt lvl.price price else lt lvl.price price)
          then (acc.0 ⊕ lvl.size, acc.1)
          else acc)
        (nil, nil) (if is_bid then book.bids else book.asks)

  unfoldable pub reward_accrual : W → W → W → W
  reward_accrual share daily_rate seconds =
      if le share nil || (le daily_rate nil || le seconds nil)
      then nil
      else share ⊗ daily_rate ⊗ (seconds ⊘ lit 86400 0)

  unfoldable pub adverse_bleed : W → W → W → W → W → W
  adverse_bleed size half_spread_c mid_prev mid_now cancel_efficiency =
      let excess = fabs (mid_now ⊖ mid_prev) ⊖ half_spread_c ⊘ lit 100 0 in
      if le excess nil then nil else size ⊗ excess ⊗ fmax nil (lit 1 0 ⊖ cancel_efficiency)

  unfoldable pub skewed_center : W → W → W → W → W → W
  skewed_center mid inventory size half_spread_c skew_strength =
      if gt size nil
      then mid ⊖ skew_strength ⊗ (inventory ⊘ size) ⊗ (half_spread_c ⊘ lit 100 0)
      else mid

  unfoldable pub maker_fill : W → W → W → W → W → W → W → W → W × W
  unfolding skewed_center
  maker_fill mid_prev mid_now inventory size half_spread_c skew_strength cancel_efficiency
        max_inventory =
      let offset = half_spread_c ⊘ lit 100 0 in
      let center = skewed_center mid_prev inventory size half_spread_c skew_strength in
      let bid = center ⊖ offset in
      let ask = center ⊕ offset in
      let f = size ⊗ fmax nil (lit 1 0 ⊖ cancel_efficiency) in
      let bought = fmin f (fmax nil (max_inventory ⊖ inventory)) in
      let sold = fmin f (fmax nil (max_inventory ⊕ inventory)) in
      if le mid_now bid
      then (bought, bought ⊗ (bid ⊖ mid_now))
      else if ge mid_now ask
      then (neg sold, sold ⊗ (mid_now ⊖ ask))
      else (nil, nil)
