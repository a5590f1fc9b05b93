-- ===== src/Engine/AccrueLive/Retired.antt =====
-- Rounds of accrue_maker_rewards_live in cpp/src/pmm/engine.cpp: which rows end, and after which calls.
use polymarket_live_maker.Prelude.{
  Double, List, Option, [], ap, fabs, false, ge, if◌then◌else◌, inl, inr, lit, nil, none, refl,
  some, ◌++◌, ◌||◌, ◌∙◌, ◌∷◌, ◌≡◌, ◌⊎◌, ◌⊕◌, ◌⊖◌, ◌⊗◌,
}
use polymarket_live_maker.OrderBook.{OrderBook}
use polymarket_live_maker.Engine.Store.{MakerQuote, AccrualUpdate, active_quotes}
use polymarket_live_maker.Engine.Place.{Api}
use polymarket_live_maker.Engine.Live.{Ack, Call, Desk}
use polymarket_live_maker.Engine.Accrue.{QuoteRead, BookSource, Clock, credit_maker}
use polymarket_live_maker.Engine.Act.{Act, pure, then_act}
use polymarket_live_maker.Engine.AccrueLive.{LiveInput, at_least_one, forces, both_legs, recenter}
use polymarket_live_maker.Engine.AccrueLive.Rounds.{
  live_update, end_rewards, keep_quote, accrue_live_read, accrue_live_quotes, accrue_live_with,
  accrue_maker_rewards_live,
}
use polymarket_live_maker.Engine.AccrueLive.Statuses.{
  statuses, credit_maker-quotes, statuses-persist,
}
use polymarket_live_maker.Engine.AccrueLive.Spoken.{sale, complement_sale, Heard}
use polymarket_live_maker.Engine.AccrueLive.Heard.{Heard-refl, if_moved-Heard, go_on}
use polymarket_live_maker.Engine.AccrueLive.Ways.{IsClear, read_ways}
use polymarket_live_maker.Engine.AccrueLive.Careful.{
  IsCareful, kept-IsCareful, drift_exit-IsCareful, wind_down-IsCareful,
}

module _ {W : Type 0} ⦃d : Double W⦄ where
  abbrev sales_of : MakerQuote W → W → W → List (Call W)
  sales_of q yes_inv no_inv = sale q.token_id yes_inv ++ complement_sale q no_inv

  -- The sales of an exit are those of both positions with the new fills; without any sale no fill came
  -- and less than one share is held on each side.
  unfoldable pub IsSold : LiveInput W → MakerQuote W → List (Call W) → Type 0
  IsSold input q sold =
      (let legs = both_legs input q q.last_mid q.inventory q.complement_inventory in
        sold ≡ sales_of q legs.0 legs.1.moved)
      ⊎ ((mid : W) × (sold
            ≡ sales_of q (q.inventory ⊕ (both_legs input q mid nil nil).0)
                (q.complement_inventory ⊕ (both_legs input q mid nil nil).1.moved)))
      ⊎ ((sold ≡ [])
          × ((mid : W) × ((both_legs input q mid nil nil).1.count ≡ 0))
          × (ge (fabs q.inventory) (lit 1 0) ≡ false)
          × (ge (fabs q.complement_inventory) (lit 1 0) ≡ false))

  module _ (submit : List (Call W) → Call W → Option Ack) where
    module _ (crossing : W) (clock : Clock W) (input : LiveInput W) where
      abbrev Careful : MakerQuote W → Desk W → Desk W → Type 0
      Careful q b after = IsCareful submit (IsSold input q) q b after

      Careful-Heard : (q : MakerQuote W) (b m : Desk W) → Heard submit b m → Careful q b m
      Careful-Heard q b m h = kept-IsCareful submit (IsSold input q) q b m m.store h refl

      keep_quote-IsCareful :
          (q : MakerQuote W) (mid : W) (book : OrderBook W) (amount : W) (u : AccrualUpdate W)
          (b : Desk W)
          → Careful q b (keep_quote submit crossing clock input q mid book amount u b).1
      unfolding keep_quote
      keep_quote-IsCareful q mid book amount u b =
          let ticks : W = lit (at_least_one input.recenter_ticks) 0 in
          let moved =
            forces input.force_recenter q.token_id
            || ge (fabs (mid ⊖ q.last_mid)) (ticks ⊗ q.tick) in
          go_on submit (λ r. Careful q b r.1) b
            ((if moved then recenter submit q mid book else pure tt) b) _
            (if_moved-Heard submit moved q mid book b) (λ m h. Careful-Heard q b m h)
            (λ t m h.
              let paid = credit_maker amount m.store in
              kept-IsCareful submit (IsSold input q) q b m _ h
                (statuses-persist q _ paid ∙ ap statuses (credit_maker-quotes amount m.store)))

      end_rewards-IsCareful :
          (q : MakerQuote W) (b : Desk W)
          → Careful q b (end_rewards submit crossing clock input q b).1
      unfolding end_rewards IsSold
      end_rewards-IsCareful q b =
          let legs = both_legs input q q.last_mid q.inventory q.complement_inventory in
          wind_down-IsCareful submit (IsSold input q) q legs.0 legs.1.moved legs.1.pnl
            (live_update clock q q.accrued_rewards legs.1 q.last_mid legs.1.pnl) crossing b
            (inl refl)

      accrue_live_read-IsCareful :
          (q : MakerQuote W) (r : QuoteRead W) (b : Desk W)
          → Careful q b (accrue_live_read submit crossing clock input q r b).1
      unfolding IsSold IsClear
      accrue_live_read-IsCareful q r b =
          read_ways submit crossing clock input (λ (f : Act W (Unit {0})). Careful q b (f b).1) q r
            (Careful-Heard q b b (Heard-refl submit b)) (end_rewards-IsCareful q b)
            (λ mid amount u.
              wind_down-IsCareful submit (IsSold input q) q _ _ amount u crossing b
                (inr (inl (mid, refl))))
            (λ mid amount u (none_filled, small, small_no).
              drift_exit-IsCareful submit (IsSold input q) q amount u b
                (inr (inr (refl, (mid, none_filled), small, small_no))))
            (λ book mid amount u. keep_quote-IsCareful q mid book amount u b)

      -- One quote after another.
      unfoldable pub AreCareful : List (MakerQuote W) → Desk W → Desk W → Type 0
      unfolding IsCareful
      AreCareful [] b after = after ≡ b
      AreCareful (q ∷ qs) b after = (m : Desk W) × Careful q b m × AreCareful qs m after

      AreCareful-refl : (qs : List (MakerQuote W)) (b : Desk W) → AreCareful qs b b
      unfolding AreCareful
      AreCareful-refl [] b = refl
      AreCareful-refl (q ∷ qs) b =
          (b, Careful-Heard q b b (Heard-refl submit b), AreCareful-refl qs b)

      quote_then :
          (q : MakerQuote W) (qs : List (MakerQuote W)) (b : Desk W)
          (r : Option (Unit {0}) × Desk W) (f : Act W (Unit {0}))
          → Careful q b r.1
          → ((m : Desk W) → AreCareful qs m (f m).1)
          → AreCareful (q ∷ qs) b (then_act r (λ t. f)).1
      unfolding then_act AreCareful
      quote_then q qs b (none, m) f h go = (m, h, AreCareful-refl qs m)
      quote_then q qs b (some t, m) f h go = (m, h, go m)

      accrue_live_quotes-AreCareful :
          (reads : MakerQuote W → QuoteRead W) (qs : List (MakerQuote W)) (b : Desk W)
          → AreCareful qs b (accrue_live_quotes submit crossing clock input reads qs b).1
      unfolding accrue_live_quotes
      accrue_live_quotes-AreCareful reads [] b = AreCareful-refl [] b
      accrue_live_quotes-AreCareful reads (q ∷ qs) b =
          quote_then q qs b _ _ (accrue_live_read-IsCareful q (reads q) b)
            (accrue_live_quotes-AreCareful reads qs)

      accrue_live_with-AreCareful :
          (cash : Option W) (reads : MakerQuote W → QuoteRead W) (b : Desk W)
          → AreCareful
              (active_quotes b.store.quotes)
              b
              (accrue_live_with submit crossing clock input cash reads b).1
      unfolding accrue_live_with
      accrue_live_with-AreCareful none reads b = AreCareful-refl _ b
      accrue_live_with-AreCareful (some c) reads b = accrue_live_quotes-AreCareful reads _ b

      -- Whatever the exchange answers: over a live accrual, quote after quote, either no row
      -- changes its status, or the rows with the quote's id are cancelled after the exchange
      -- acknowledged every call for the quote. These are the cancels of its tokens and then the
      -- sale of each position, with the new fills, that is not below a billionth; or the cancels
      -- alone, where no fill came and less than one share is held on each side.
      pub accrue_maker_rewards_live-AreCareful :
          (api : Api W) (source : Option (BookSource W)) (desk : Desk W)
          → AreCareful
              (active_quotes desk.store.quotes)
              desk
              (accrue_maker_rewards_live submit crossing clock input api source desk).1
      unfolding accrue_maker_rewards_live
      accrue_maker_rewards_live-AreCareful api source desk =
          accrue_live_with-AreCareful desk.store.cash _ desk
