-- ===== src/Engine/Rollback.antt =====
-- What a live placement leaves: the four ways out of place_maker_quote_live.
use polymarket_live_maker.Prelude.{
  Bytes, Double, List, Option, [], ap, append_assoc, either, either_when, if_false, if_true,
  if◌then◌else◌, inl, inr, is_empty, none, refl, some, subst, suc, sym, true, ℕ, ◌++◌, ◌||◌, ◌∙◌,
  ◌∷◌, ◌≡◌, ◌⊎◌, ◌⊕◌, ◌⊖◌,
}
use polymarket_live_maker.Maker.{Order, Quotes}
use polymarket_live_maker.Engine.AccrueLive.Spoken.{AreAcked}
use polymarket_live_maker.Engine.Legs.{
  legs, IsFor, place_legs-calls, place_legs-AreAcked, live_quotes-IsFor,
}
use polymarket_live_maker.Engine.Store.{
  MakerQuote, active, Store, is_active, is_active_status, update_cash,
}
use polymarket_live_maker.Engine.Place.{MakerQuoteOpts, Api, EngineError}
use polymarket_live_maker.Engine.Live.{
  Call, cancel_orders, Ack, LiveResult, skipped_holding, placed, failed, threw, Desk, holds,
  cancel_with, cancel_maker_quote, place_legs, all_ok, close_quote, cancel_complement, roll_back,
  submit_legs, live_quotes, go_live, place_maker_quote_live,
}
use polymarket_live_maker.Engine.Placed.{IsPlaced, place_maker_quote-IsPlaced}
use polymarket_live_maker.Engine.Rows.{AreBelow, closed, get-new, cancel_row-new}

module _ {W : Type 0} ⦃d : Double W⦄ where
  -- The two tokens of the quote, the second where it has a name.
  unfoldable pub cancels_of : MakerQuote W → List (Call W)
  cancels_of q =
      if is_empty q.complement_token_id
      then cancel_orders q.token_id ∷ []
      else cancel_orders q.token_id ∷ cancel_orders q.complement_token_id ∷ []

  -- The store with the new quote cancelled and its capital given back.
  unfoldable pub IsRefunded : Store W → MakerQuote W → Store W → Type 0
  IsRefunded st q after =
      (cash : W) × (st.cash ≡ some cash)
      × (q.id ≡ suc st.last_id)
      × (after ≡ record {
        cash = some ((cash ⊖ q.committed_capital) ⊕ q.committed_capital);
        quotes = st.quotes ++ (closed q ∷ []);
        last_id = suc st.last_id;
      })

  unfoldable pub IsRolledBack : Store W → Desk W → Type 0
  unfolding cancels_of IsRefunded
  IsRolledBack st after =
      (q : MakerQuote W) × (log : List (Call W)) × (after.calls ≡ log ++ cancels_of q)
      × IsRefunded st q after.store

  cancel_maker_quote-new :
      (cash : W) (n : ℕ) (qs : List (MakerQuote W)) (q : MakerQuote W)
      → AreBelow n qs
      → q.id ≡ suc n
      → q.status ≡ active
      → (cancel_maker_quote
          (suc n)
          (record { cash = some cash; quotes = qs ++ (q ∷ []); last_id = suc n })).1
        ≡ record {
          cash = some (cash ⊕ q.committed_capital);
          quotes = qs ++ (closed q ∷ []);
          last_id = suc n;
        }
  unfolding cancel_maker_quote cancel_with update_cash
  cancel_maker_quote-new cash n qs q below new on =
      let live : is_active q ≡ true = ap is_active_status on in
      simp (get-new n qs q below new, live)
        (cancel_row-new (some (cash ⊕ q.committed_capital)) n qs q below new on)

  cancel_maker_quote-placed :
      (st after : Store W) (q : MakerQuote W)
      → AreBelow st.last_id st.quotes
      → IsPlaced st (inr q, after)
      → IsRefunded st q (cancel_maker_quote q.id after).1
  unfolding IsPlaced IsRefunded
  cancel_maker_quote-placed st after q below (cash, has, sound, on, new, same) =
      let made : Store W = record {
        cash = some (cash ⊖ q.committed_capital);
        quotes = st.quotes ++ (q ∷ []);
        last_id = suc st.last_id;
      } in
      let written =
        cancel_maker_quote-new (cash ⊖ q.committed_capital) st.last_id st.quotes q below new on in
      (
        cash,
        has,
        new,
        ap (λ (s : Store W). (cancel_maker_quote q.id s).1) same
            ∙ (ap (λ k. (cancel_maker_quote k made).1) new ∙ written),
      )

  module _ (submit : List (Call W) → Call W → Option Ack) where
    -- A failure leaves the desk as it was, or cancels both tokens and gives the capital back. An
    -- accepted quote has its legs sent, each with an answer that accepts it; a held position sends
    -- nothing. In the last three ways the new quote is active.
    unfoldable pub IsSettled : Desk W → LiveResult W × Desk W → Type 0
    unfolding IsRolledBack IsPlaced legs IsFor AreAcked
    IsSettled desk (failed e, after) = (after ≡ desk) ⊎ IsRolledBack desk.store after
    IsSettled desk (placed q acks, after) =
        ((bid : Order W) × (ask : Order W) × IsFor q (inr (bid, ask))
          × (after.calls ≡ desk.calls ++ legs (bid ∷ ask ∷ []))
          × AreAcked submit desk.calls (legs (bid ∷ ask ∷ [])))
        × IsPlaced desk.store (inr q, after.store)
    IsSettled desk (skipped_holding, after) =
        (after.calls ≡ desk.calls) × (q : MakerQuote W) × IsPlaced desk.store (inr q, after.store)
    IsSettled desk (threw, after) = (q : MakerQuote W) × IsPlaced desk.store (inr q, after.store)

    close_quote-IsSettled :
        (q : MakerQuote W) (before desk : Desk W) (log : List (Call W)) (r : Option Ack)
        → AreBelow before.store.last_id before.store.quotes
        → IsPlaced before.store (inr q, desk.store)
        → log ≡ desk.calls ++ cancels_of q
        → IsSettled before (close_quote submit q desk log r)
    unfolding close_quote IsSettled IsRolledBack
    close_quote-IsSettled q before desk log none below new h = (q, new)
    close_quote-IsSettled q before desk log (some a) below new h =
        inr (q, desk.calls, h, cancel_maker_quote-placed before.store desk.store q below new)

    cancel_complement-IsSettled :
        (q : MakerQuote W) (before desk : Desk W) (r : Option Ack)
        → AreBelow before.store.last_id before.store.quotes
        → IsPlaced before.store (inr q, desk.store)
        → IsSettled before (cancel_complement submit q desk r)
    unfolding cancel_complement close_quote IsSettled cancels_of
    cancel_complement-IsSettled q before desk none below new = (q, new)
    cancel_complement-IsSettled q before desk (some a) below new =
        let yes = cancel_orders q.token_id in
        let no = cancel_orders q.complement_token_id in
        let log = desk.calls ++ (yes ∷ []) in
        either_when (IsSettled before) (is_empty q.complement_token_id)
          (close_quote submit q desk log (some a))
          (close_quote submit q desk (log ++ (no ∷ [])) (submit log no))
          (λ e.
            close_quote-IsSettled q before desk _ (some a) below new
              (ap (λ c. desk.calls ++ c) (sym (if_true _ _ _ e))))
          (λ e. close_quote-IsSettled q before desk _ (submit log no) below new (
            append_assoc desk.calls (yes ∷ []) (no ∷ [])
            ∙ ap (λ c. desk.calls ++ c) (sym (if_false _ _ _ e))))

    submit_legs-IsSettled :
        (q : MakerQuote W) (quotes : Quotes W) (before desk : Desk W)
        → AreBelow before.store.last_id before.store.quotes
        → IsPlaced before.store (inr q, desk.store)
        → desk.calls ≡ before.calls
        → IsFor q quotes
        → IsSettled before (submit_legs submit q quotes desk)
    unfolding submit_legs roll_back IsSettled
    submit_legs-IsSettled q (inl e) before desk below new said own = (q, new)
    submit_legs-IsSettled q (inr (bid, ask)) before desk below new said own =
        let sent = place_legs submit (bid ∷ ask ∷ []) desk.calls [] in
        let after : Desk W = record { store = desk.store; calls = sent.1 } in
        either_when (IsSettled before) (all_ok submit sent.0) (placed q sent.0, after)
          (roll_back submit q after)
          (λ ok.
            let os = bid ∷ ask ∷ [] in
            (
              (
                bid,
                ask,
                own,
                place_legs-calls submit os desk.calls [] ∙ ap (λ l. l ++ legs os) said,
                subst (λ l. AreAcked submit l (legs os)) said
                    (place_legs-AreAcked submit os desk.calls [] ok).1,
              ),
              new,
            ))
          (λ ok. cancel_complement-IsSettled q before after _ below new)

    module _ (api : Api W) (chain : List (Bytes × W)) (micro : Option (W × W)) where
      go_live-IsSettled :
          (r : (EngineError W ⊎ MakerQuote W) × Store W) (before : Desk W)
          → AreBelow before.store.last_id before.store.quotes
          → IsPlaced before.store r
          → IsSettled before (go_live submit api chain micro r before.calls)
      unfolding go_live IsSettled IsPlaced
      go_live-IsSettled (inl e, st) before below new =
          inl (ap (λ (x : Store W). record before { store = x }) new)
      go_live-IsSettled (inr q, st) before below new =
          let desk : Desk W = record { store = st; calls = before.calls } in
          let quotes = live_quotes submit api chain micro q (api.get_order_book q.token_id) in
          either (IsSettled before) (holds chain q.token_id || holds chain q.complement_token_id)
            (skipped_holding, desk) (submit_legs submit q quotes desk) (refl, q, new)
            (submit_legs-IsSettled q quotes before desk below new refl
              (live_quotes-IsFor submit api chain micro q (api.get_order_book q.token_id)))

      -- Where the ids so far are not above the last one, a live placement that fails leaves the
      -- desk as it was, or has asked the exchange to cancel both tokens, cancelled the new row and
      -- added its capital to the debited cash. One that succeeds has sent an order for each token
      -- of the quote that is not empty, the first token before the second and nothing else, and the
      -- exchange answered each of them and accepted it. One that is skipped for a held position
      -- sends nothing. One that succeeds, is skipped or throws leaves the new quote active with its
      -- capital taken.
      pub place_maker_quote_live-IsSettled :
          (slug outcome : Bytes) (opts : MakerQuoteOpts W) (stamp : Bytes) (desk : Desk W)
          → AreBelow desk.store.last_id desk.store.quotes
          → IsSettled desk
              (place_maker_quote_live submit api chain micro slug outcome opts stamp desk)
      unfolding place_maker_quote_live
      place_maker_quote_live-IsSettled slug outcome opts stamp desk below =
          go_live-IsSettled _ desk below
            (place_maker_quote-IsPlaced api slug outcome _ stamp desk.store)
