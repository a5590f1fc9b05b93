-- ===== src/TailVendor.antt =====
-- cpp/include/pmm/tail_vendor.hpp and cpp/src/pmm/tail_vendor.cpp: the seller of upward tails, that
-- is its data, the quote for one candidate and the exit test.
pub mod Guards
pub mod Plan
pub mod Ledger
pub mod Caps
pub mod Money
pub mod Orders
pub mod Sweep
pub mod Standing
pub mod Fate
pub mod Sheet
use polymarket_live_maker.Prelude.{
  Bool, Bytes, Double, Option, codes, floor, fmax, fmin, ge, gt, if◌then◌else◌, le, leb, lit, lt,
  nil, none, round, same_str, some, true, ℕ, ℤ, ◌&&◌, ◌==◌, ◌>>=◌, ◌||◌, ◌⊕◌, ◌⊖◌, ◌⊗◌, ◌⊘◌,
}

pub record Candidate (W : Type 0) : Type 0 where
  pub cond : Bytes
  pub slug : Bytes
  pub yes_token : Bytes
  pub no_token : Bytes
  pub coin : Bytes
  pub yes_bid : W
  pub yes_ask : W
  pub days_left : W
  pub band_clamp : Bool
  pub is_touch : Bool
  pub wl_collateral : W
  pub wl_fair : W

pub record Config (W : Type 0) : Type 0 where
  pub yes_min : W
  pub yes_max : W
  pub yes_exit : W
  pub floor_yes : W
  pub min_edge : W
  pub days_min : W
  pub days_max : W
  pub per_order_usd : W
  pub per_coin_usd : W
  pub per_coin_alt_usd : W
  pub per_market_usd : W
  pub total_usd : W
  pub max_orders : ℤ
  pub min_shares : W
  pub tick : W
  pub touch_per_order_usd : W
  pub touch_per_market_usd : W
  pub touch_per_coin_usd : W
  pub touch_total_usd : W
  pub touch_max_orders : ℤ

pub record Quote (W : Type 0) : Type 0 where
  pub no_token : Bytes
  pub no_price : W
  pub size : W
  pub note : Bytes

-- `http == 0 || http >= 500` for a status, which is not negative.
unfoldable pub is_transient_place_error : ℕ → Bool
is_transient_place_error http = http == 0 || leb 500 http

-- `c.coin == "sol" || c.coin == "xrp"`.
unfoldable pub is_alt : Bytes → Bool
is_alt coin = same_str coin (codes "sol") || same_str coin (codes "xrp")

module _ {W : Type 0} ⦃d : Double W⦄ where
  -- 1e-9.
  abbrev pub eps : W
  eps = lit 1 9

  unfoldable pub round_tick : W → W → W
  round_tick px tick = round (px ⊘ tick) ⊗ tick

  -- One tick under the best ask, not below the floor.
  unfoldable pub undercut : Candidate W → Config W → W
  unfolding round_tick
  undercut c cfg = round_tick (fmax cfg.floor_yes (c.yes_ask ⊖ cfg.tick)) cfg.tick

  -- Above the band: the top of the band where the row allows it.
  unfoldable pub clamp_band : Candidate W → Config W → W → Option W
  clamp_band c cfg sell_yes =
      if gt sell_yes cfg.yes_max
      then if c.band_clamp then some cfg.yes_max else none
      else some sell_yes

  -- The tests of the clamped price: the edge, the band, no taking, and a place ahead of the queue.
  unfoldable pub refuses_price : Candidate W → Config W → W → Bool
  refuses_price c cfg sell_yes =
      ge c.wl_fair nil && lt sell_yes (c.wl_fair ⊕ cfg.min_edge ⊖ eps)
      || (lt sell_yes cfg.yes_min
          || (le sell_yes (c.yes_bid ⊕ eps) || ge sell_yes (c.yes_ask ⊖ eps)))

  unfoldable pub sell_price : Candidate W → Config W → Option W
  sell_price c cfg =
      if lt c.days_left cfg.days_min || gt c.days_left cfg.days_max
      then none
      else if le c.yes_ask nil || ge c.yes_ask (lit 1 0)
      then none
      else do
        sell_yes ← clamp_band c cfg (undercut c cfg)
        if refuses_price c cfg sell_yes then none else some sell_yes

  unfoldable pub order_usd : Candidate W → Config W → W
  order_usd c cfg =
      if c.is_touch then fmin c.wl_collateral cfg.touch_per_order_usd else cfg.per_order_usd

  unfoldable pub cap_market : Candidate W → Config W → W
  cap_market c cfg = if c.is_touch then cfg.touch_per_market_usd else cfg.per_market_usd

  unfoldable pub cap_coin : Bool → Bytes → Config W → W
  cap_coin touch coin cfg =
      if touch
      then cfg.touch_per_coin_usd
      else if is_alt coin && gt cfg.per_coin_alt_usd nil
      then cfg.per_coin_alt_usd
      else cfg.per_coin_usd

  unfoldable pub cap_total : Bool → Config W → W
  cap_total touch cfg = if touch then cfg.touch_total_usd else cfg.total_usd

  -- `deployed + notional > cap + 1e-9`.
  unfoldable pub over_cap : W → W → W → Bool
  over_cap cap deployed notional = gt (deployed ⊕ notional) (cap ⊕ eps)

  unfoldable pub sized_quote : Candidate W → Config W → W → W → W → W → Option (Quote W)
  sized_quote c cfg deployed_market deployed_coin deployed_total no_price =
      let size = floor (order_usd c cfg ⊘ no_price) in
      let notional = size ⊗ no_price in
      if lt size cfg.min_shares
      then none
      else if over_cap (cap_market c cfg) deployed_market notional
          || (over_cap (cap_coin c.is_touch c.coin cfg) deployed_coin notional
              || over_cap (cap_total c.is_touch cfg) deployed_total notional)
      then none
      else some (record { no_token = c.no_token; no_price = no_price; size = size; note = c.slug })

  unfoldable pub decide : Candidate W → Config W → W → W → W → Option (Quote W)
  decide c cfg deployed_market deployed_coin deployed_total = do
    sell_yes ← sell_price c cfg
    if c.is_touch && le cfg.touch_total_usd nil || le (order_usd c cfg) nil
        then none
        else sized_quote c cfg deployed_market deployed_coin deployed_total
            (round_tick (lit 1 0 ⊖ sell_yes) cfg.tick)

  unfoldable pub should_pull : Candidate W → Config W → Bool
  should_pull c cfg =
      if lt c.days_left (cfg.days_min ⊗ lit 5 1)
      then true
      else if c.band_clamp
      then ge c.yes_bid cfg.yes_exit
      else ge ((c.yes_bid ⊕ c.yes_ask) ⊘ lit 2 0) cfg.yes_exit
        || gt (c.yes_ask ⊖ c.yes_bid) (lit 20 2)
