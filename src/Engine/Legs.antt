-- ===== src/Engine/Legs.antt =====
-- The legs of place_maker_quote_live in cpp/src/pmm/engine.cpp: what is sent, and what was accepted.
use polymarket_live_maker.Prelude.{
  Bool-cases, Bytes, Double, List, Option, [], ap, append-nil, append_assoc, arith, codes,
  if◌then◌else◌, inl, inr, is_empty, lit, lt, nil, none, not, refl, same_str, some, subst, sym,
  true, ◌&&◌, ◌++◌, ◌∙◌, ◌∷◌, ◌≡◌,
}
use polymarket_live_maker.OrderBook.{OrderBook}
use polymarket_live_maker.Maker.{Order, Quotes, compute_two_sided_quotes_yes_no}
use polymarket_live_maker.Engine.Store.{MakerQuote}
use polymarket_live_maker.Engine.Place.{Api}
use polymarket_live_maker.Engine.Live.{
  Call, place_order, Ack, action_ok, place_legs, all_ok, live_quotes,
}
use polymarket_live_maker.Engine.AccrueLive.Spoken.{AreAcked}

module _ {W : Type 0} ⦃d : Double W⦄ where
  -- The calls for some orders; one without a token is not sent.
  unfoldable pub legs : List (Order W) → List (Call W)
  legs [] = []
  legs (o ∷ os) = let rest = legs os in if is_empty o.token_id then rest else place_order o ∷ rest

  -- The first order is for the quote's token, the second for the other one.
  unfoldable pub IsFor : MakerQuote W → Quotes W → Type 0
  IsFor q (inl e) = Unit
  IsFor q (inr (bid, ask)) = (bid.token_id ≡ q.token_id) × (ask.token_id ≡ q.complement_token_id)

  module _ (submit : List (Call W) → Call W → Option Ack) where
    all_ok-append :
        (acks : List Ack) (a : Ack)
        → all_ok submit (acks ++ (a ∷ [])) ≡ true
        → (all_ok submit acks ≡ true) × (action_ok a ≡ true)
    unfolding all_ok
    all_ok-append [] a h = (refl, ground arith)
    all_ok-append (b ∷ acks) a h =
        let rest = all_ok-append acks a (ground arith) in
        (let (ok, last) = rest in (ground arith, last))

    pub place_legs-calls :
        (os : List (Order W)) (log : List (Call W)) (acks : List Ack)
        → (place_legs submit os log acks).1 ≡ log ++ legs os
    unfolding place_legs legs
    place_legs-calls [] log acks = sym (append-nil log)
    place_legs-calls (o ∷ os) log acks = elim (Bool-cases (is_empty o.token_id)) [
      | inl e ↦ simp e (place_legs-calls os log acks)
      | inr e ↦ simp e (
          place_legs-calls os (log ++ (place_order o ∷ [])) _
          ∙ append_assoc log (place_order o ∷ []) (legs os))
    ]

    -- A throw counts as an error.
    ack_or : Option Ack → Ack
    ack_or r = elim r [ none ↦ record { status = some (codes "ERROR") } | some a ↦ a ]

    sent-AreAcked :
        (c : Call W) (log : List (Call W)) (acks : List Ack) (r : Option Ack) (cs : List (Call W))
        → submit log c ≡ r
        → (all_ok submit (acks ++ (ack_or r ∷ [])) ≡ true) × AreAcked submit (log ++ (c ∷ [])) cs
        → (all_ok submit acks ≡ true) × AreAcked submit log (c ∷ cs)
    unfolding AreAcked ack_or action_ok same_str
    sent-AreAcked c log acks none cs e (ok, later) =
        let (before, last) = all_ok-append acks _ ok in absurd (cc)
    sent-AreAcked c log acks (some a) cs e (ok, later) =
        let (before, last) = all_ok-append acks a ok in (before, ((a, e, last), later))

    -- Where the answers are fine, each call was answered, and accepted.
    pub place_legs-AreAcked :
        (os : List (Order W)) (log : List (Call W)) (acks : List Ack)
        → all_ok submit (place_legs submit os log acks).0 ≡ true
        → (all_ok submit acks ≡ true) × AreAcked submit log (legs os)
    unfolding place_legs legs ack_or AreAcked
    place_legs-AreAcked [] log acks h = (h, tt)
    place_legs-AreAcked (o ∷ os) log acks h = elim (Bool-cases (is_empty o.token_id)) [
      | inl e ↦
          let same : place_legs submit (o ∷ os) log acks ≡ place_legs submit os log acks =
            simp e refl in
          simp e (
            place_legs-AreAcked os log acks
              (ap (λ (p : List Ack × List (Call W)). all_ok submit p.0) (sym same) ∙ h))
      | inr e ↦
          let c = place_order o in
          let more = acks ++ (ack_or (submit log c) ∷ []) in
          let same : place_legs submit (o ∷ os) log acks
              ≡ place_legs submit os (log ++ (c ∷ [])) more =
            simp e refl in
          let called : legs (o ∷ os) ≡ c ∷ legs os = simp e refl in
          subst (λ cs. (all_ok submit acks ≡ true) × AreAcked submit log cs) (sym called)
            (sent-AreAcked c log acks (submit log c) (legs os) refl (
              place_legs-AreAcked os (log ++ (c ∷ [])) more
                (ap (λ (p : List Ack × List (Call W)). all_ok submit p.0) (sym same) ∙ h)))
    ]

  quotes-IsFor :
      (q : MakerQuote W) (m h sz t v bb ba : W) (sk sh : W)
      → IsFor q
          (compute_two_sided_quotes_yes_no m h sz t v q.token_id q.complement_token_id bb ba sk sh)
  unfolding compute_two_sided_quotes_yes_no IsFor
  quotes-IsFor q m h sz t v bb ba sk sh = elim (Bool-cases (not (lt nil m && lt m (lit 1 0)))) [
    | inl e ↦ simp e tt
    | inr e ↦ simp e (refl, refl)
  ]

  module _ (submit : List (Call W) → Call W → Option Ack) (api : Api W) (chain : List (Bytes × W))
      (micro : Option (W × W)) where
    pub live_quotes-IsFor :
        (q : MakerQuote W) (book : Option (OrderBook W))
        → IsFor q (live_quotes submit api chain micro q book)
    unfolding live_quotes
    live_quotes-IsFor q none = quotes-IsFor q _ _ _ _ _ _ _ _ _
    live_quotes-IsFor q (some book) = quotes-IsFor q _ _ _ _ _ _ _ _ _
