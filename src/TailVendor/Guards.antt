-- ===== src/TailVendor/Guards.antt =====
-- What holds of every quote that is given.
use polymarket_live_maker.Prelude.{
  Bool-cases, Double, Option-cases, arith, false, floor, ge, gt, inl, inr, le, lit, lt, nil, refl,
  some, subst, true, ◌&&◌, ◌||◌, ◌≡◌, ◌⊎◌, ◌⊕◌, ◌⊖◌, ◌⊗◌, ◌⊘◌,
}
use polymarket_live_maker.TailVendor.{
  Candidate, Config, Quote, eps, round_tick, undercut, clamp_band, refuses_price, sell_price,
  order_usd, cap_market, cap_coin, cap_total, over_cap, sized_quote, decide,
}

module _ {W : Type 0} ⦃d : Double W⦄ (c : Candidate W) (cfg : Config W) where
  -- A price that passes every test of the code.
  pub record IsPrice (sell_yes : W) : Type 0 where
    pub early : lt c.days_left cfg.days_min ≡ false
    pub late : gt c.days_left cfg.days_max ≡ false
    pub band :
        (gt sell_yes cfg.yes_max ≡ false) ⊎ ((c.band_clamp ≡ true) × (sell_yes ≡ cfg.yes_max))
    pub low : lt sell_yes cfg.yes_min ≡ false
    pub edge : ge c.wl_fair nil ≡ true → lt sell_yes (c.wl_fair ⊕ cfg.min_edge ⊖ eps) ≡ false
    pub maker : le sell_yes (c.yes_bid ⊕ eps) ≡ false
    pub ahead : ge sell_yes (c.yes_ask ⊖ eps) ≡ false

  refuses_price_parts :
      (p : W)
      → refuses_price c cfg p ≡ false
      → (ge c.wl_fair nil ≡ true → lt p (c.wl_fair ⊕ cfg.min_edge ⊖ eps) ≡ false)
        × (lt p cfg.yes_min ≡ false)
        × (le p (c.yes_bid ⊕ eps) ≡ false)
        × (ge p (c.yes_ask ⊖ eps) ≡ false)
  unfolding refuses_price
  refuses_price_parts p h = ground arith

  clamp_band_parts :
      (p sell : W)
      → clamp_band c cfg p ≡ some sell
      → (gt sell cfg.yes_max ≡ false) ⊎ ((c.band_clamp ≡ true) × (sell ≡ cfg.yes_max))
  unfolding clamp_band
  clamp_band_parts p sell h = elim (Bool-cases (gt p cfg.yes_max)) [
    | inl e ↦ elim (Bool-cases c.band_clamp) [
      | inl b ↦ inr (b, ground arith)
      | inr b ↦ absurd (ground arith)
    ]
    | inr e ↦ let same : p ≡ sell = ground arith in inl (rw (← same) e)
  ]

  sell_price-IsPrice : (sell : W) → sell_price c cfg ≡ some sell → IsPrice sell
  unfolding sell_price
  sell_price-IsPrice sell h = elim (Option-cases (clamp_band c cfg (undercut c cfg))) [
    | inl z ↦ absurd (ground arith)
    | inr (p, e) ↦ elim (Bool-cases (refuses_price c cfg p)) [
      | inl bad ↦ absurd (ground arith)
      | inr good ↦
          let (edge, low, maker, ahead) = refuses_price_parts p good in
          let same : p ≡ sell = ground arith in
          subst IsPrice same record {
            early = ground arith;
            late = ground arith;
            band = clamp_band_parts (undercut c cfg) p e;
            low = low;
            edge = edge;
            maker = maker;
            ahead = ahead;
          }
    ]
  ]

  module _ (deployed_market deployed_coin deployed_total : W) where
    -- A quote for the candidate: its price, its size, and the money it needs.
    pub record IsQuote (sell_yes : W) (q : Quote W) : Type 0 where
      pub no_token : q.no_token ≡ c.no_token
      pub note : q.note ≡ c.slug
      pub no_price : q.no_price ≡ round_tick (lit 1 0 ⊖ sell_yes) cfg.tick
      pub size : q.size ≡ floor (order_usd c cfg ⊘ q.no_price)
      pub enough : lt q.size cfg.min_shares ≡ false
      pub armed : c.is_touch ≡ true → le cfg.touch_total_usd nil ≡ false
      pub market : over_cap (cap_market c cfg) deployed_market (q.size ⊗ q.no_price) ≡ false
      pub coin :
          over_cap (cap_coin c.is_touch c.coin cfg) deployed_coin (q.size ⊗ q.no_price) ≡ false
      pub total : over_cap (cap_total c.is_touch cfg) deployed_total (q.size ⊗ q.no_price) ≡ false

    sized_quote-IsQuote :
        (sell : W) (q : Quote W)
        → (c.is_touch ≡ true → le cfg.touch_total_usd nil ≡ false)
        → sized_quote c cfg deployed_market deployed_coin deployed_total
            (round_tick (lit 1 0 ⊖ sell) cfg.tick)
          ≡ some q
        → IsQuote sell q
    unfolding sized_quote
    sized_quote-IsQuote sell q armed h =
        let no_price : W = round_tick (lit 1 0 ⊖ sell) cfg.tick in
        let size : W = floor (order_usd c cfg ⊘ no_price) in
        elim (Bool-cases (lt size cfg.min_shares)) [
          | inl e ↦ absurd (ground arith)
          | inr enough ↦
              elim (Bool-cases (
                over_cap (cap_market c cfg) deployed_market (size ⊗ no_price)
                || (over_cap (cap_coin c.is_touch c.coin cfg) deployed_coin (size ⊗ no_price)
                    || over_cap (cap_total c.is_touch cfg) deployed_total (size ⊗ no_price)))) [
                      | inl e ↦ absurd (ground arith)
                      | inr within ↦
                          let made : record {
                            no_token = c.no_token;
                            no_price = no_price;
                            size = size;
                            note = c.slug;
                          }
                              ≡ q =
                            ground arith in
                          subst (IsQuote sell) made (record {
                            no_token = refl;
                            note = refl;
                            no_price = refl;
                            size = refl;
                            enough = enough;
                            armed = armed;
                            market = ground arith;
                            coin = ground arith;
                            total = ground arith;
                          })
                    ]
        ]

    pub decide-IsQuote :
        (q : Quote W)
        → decide c cfg deployed_market deployed_coin deployed_total ≡ some q
        → (sell_yes : W) × IsPrice sell_yes × IsQuote sell_yes q
    unfolding decide
    decide-IsQuote q h = elim (Option-cases (sell_price c cfg)) [
      | inl z ↦ absurd (ground arith)
      | inr (sell, e) ↦
          elim (Bool-cases (c.is_touch && le cfg.touch_total_usd nil || le (order_usd c cfg) nil)) [
            | inl bad ↦ absurd (ground arith)
            | inr good ↦ (
              sell,
              sell_price-IsPrice sell e,
              sized_quote-IsQuote sell q (ground arith) (ground arith),
            )
          ]
    ]
