-- ===== src/Engine/AccrueLive/Heard.antt =====
-- The re-centring in accrue_maker_rewards_live of cpp/src/pmm/engine.cpp writes no row.
use polymarket_live_maker.Prelude.{
  Bool, Double, List, Option, [], append-nil, either, false, if◌then◌else◌, inl, inr, is_empty,
  none, refl, some, sym, true, ◌∷◌,
}
use polymarket_live_maker.OrderBook.{OrderBook}
use polymarket_live_maker.Maker.{Order, Quotes}
use polymarket_live_maker.Engine.Store.{MakerQuote}
use polymarket_live_maker.Engine.Live.{Ack, Call, place_order, Desk}
use polymarket_live_maker.Engine.Act.{Act, pure, send, then_act}
use polymarket_live_maker.Engine.AccrueLive.{cancel_both, place_each, place_quotes, recenter}
use polymarket_live_maker.Engine.AccrueLive.Spoken.{
  Heard, Heard-trans, Spoken-Heard, cancel_both-Spoken,
}

module _ {W : Type 0} ⦃d : Double W⦄ (submit : List (Call W) → Call W → Option Ack) where
  pub Heard-refl : (b : Desk W) → Heard submit b b
  unfolding Heard
  Heard-refl b = (refl, [], sym (append-nil b.calls))

  send-Heard : (c : Call W) (b : Desk W) → Heard submit b (send submit c b).1
  unfolding send Heard
  send-Heard c b = (refl, c ∷ [], refl)

  pub go_on :
      {A B : Type 0} (P : Option B × Desk W → Type 0) (b : Desk W) (r : Option A × Desk W)
      (f : A → Act W B)
      → Heard submit b r.1
      → ((m : Desk W) → Heard submit b m → P (none, m))
      → ((a : A) (m : Desk W) → Heard submit b m → P (f a m))
      → P (then_act r f)
  unfolding then_act
  go_on P b (none, m) f h stop go = stop m h
  go_on P b (some a, m) f h stop go = go a m h

  place_each-Heard : (os : List (Order W)) (b : Desk W) → Heard submit b (place_each submit os b).1
  unfolding place_each
  place_each-Heard [] b = Heard-refl b
  place_each-Heard (o ∷ os) b =
      either (λ (h : Act W (Unit {0})). Heard submit b (h b).1) (is_empty o.token_id) _ _
        (place_each-Heard os b)
        (go_on (λ r. Heard submit b r.1) b (send submit (place_order o) b) _
          (send-Heard (place_order o) b) (λ m h. h)
          (λ a m h. Heard-trans submit b m _ h (place_each-Heard os m)))

  place_quotes-Heard :
      (quotes : Quotes W) (b : Desk W) → Heard submit b (place_quotes submit quotes b).1
  unfolding place_quotes
  place_quotes-Heard (inl e) b = Heard-refl b
  place_quotes-Heard (inr (bid, ask)) b = place_each-Heard (bid ∷ ask ∷ []) b

  recenter-Heard :
      (q : MakerQuote W) (mid : W) (book : OrderBook W) (b : Desk W)
      → Heard submit b (recenter submit q mid book b).1
  unfolding recenter
  recenter-Heard q mid book b =
      go_on (λ r. Heard submit b r.1) b (cancel_both submit q b) _
        (Spoken-Heard submit b _ _ (cancel_both-Spoken submit q b)) (λ m h. h)
        (λ a m h. Heard-trans submit b m _ h (place_quotes-Heard _ m))

  pub if_moved-Heard :
      (moved : Bool) (q : MakerQuote W) (mid : W) (book : OrderBook W) (b : Desk W)
      → Heard submit b ((if moved then recenter submit q mid book else pure tt) b).1
  if_moved-Heard true q mid book b = recenter-Heard q mid book b
  if_moved-Heard false q mid book b = Heard-refl b
