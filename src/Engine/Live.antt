-- ===== src/Engine/Live.antt =====
-- place_maker_quote_live and cancel_maker_quote of cpp/src/pmm/engine.cpp. The submitter is a parameter
-- whose answers may depend on the calls before; `none` is a throw. The message of a failed placement is
-- printed, and is left out.
use polymarket_live_maker.Prelude.{
  Bool, Bytes, Double, List, Option, [], codes, fabs, false, find, ge, gt, if◌then◌else◌, inl, inr,
  is_empty, le, lit, lt, nil, none, not, same_str, some, true, ℕ, ◌&&◌, ◌++◌, ◌||◌, ◌∷◌, ◌⊎◌, ◌⊕◌,
  ◌⊖◌, ◌⊗◌,
}
use polymarket_live_maker.OrderBook.{OrderBook, OrderBookLevel}
use polymarket_live_maker.OrderBook.Signals.{compute_book_signals}
use polymarket_live_maker.Maker.{Order, Quotes, compute_two_sided_quotes_yes_no}
use polymarket_live_maker.Engine.Store.{
  MakerQuote, Store, is_active, update_cash, get_maker_quote, cancel_row,
}
use polymarket_live_maker.Engine.Place.{
  MakerQuoteOpts, Api, EngineError, order_rejected, place_maker_quote,
}

-- The JSON objects that are submitted.
pub data Call (W : Type 0) : Type 0 where
  place_order : Order W → Call W
  cancel_orders : Bytes → Call W
  -- Token, side and size.
  flatten_position : Bytes → Bytes → W → Call W

-- The `status` of an answer, where it is a string.
pub record Ack : Type 0 where
  pub status : Option Bytes

unfoldable pub action_ok : Ack → Bool
action_ok a = elim a.status [
  | none ↦ true
  | some st ↦ not (same_str st (codes "ERROR")) && not (same_str st (codes "REJECTED"))
]

pub data LiveResult (W : Type 0) : Type 0 where
  skipped_holding : LiveResult W
  placed : MakerQuote W → List Ack → LiveResult W
  failed : EngineError W → LiveResult W
  threw : LiveResult W

pub record Desk (W : Type 0) : Type 0 where
  pub store : Store W
  pub calls : List (Call W)

module _ {W : Type 0} ⦃d : Double W⦄ where
  -- `held` of the guard.
  unfoldable pub holds : List (Bytes × W) → Bytes → Bool
  holds chain tok =
      if is_empty tok
      then false
      else elim (find tok chain) [ none ↦ false | some size ↦ ge (fabs size) (lit 1 0) ]

  unfoldable pub top_bid : W → List (OrderBookLevel W) → W
  top_bid best [] = best
  top_bid best (l ∷ ls) = top_bid (if gt l.size nil && gt l.price best then l.price else best) ls

  unfoldable pub top_ask : W → List (OrderBookLevel W) → W
  top_ask best [] = best
  top_ask best (l ∷ ls) =
      top_ask
        (if gt l.size nil && ((le best nil && ge best nil) || lt l.price best)
          then l.price
          else best)
        ls

  -- Give back the committed capital and cancel the row; without an account the code throws, here `none`.
  unfoldable pub cancel_with :
      ℕ → Option W → Option (MakerQuote W) → Store W → Option (MakerQuote W) × Store W
  cancel_with k none found st = (none, st)
  cancel_with k (some cash) none st = (none, st)
  cancel_with k (some cash) (some q) st =
      let gone = cancel_row k (update_cash (cash ⊕ q.committed_capital) st) in
      if is_active q then gone else (none, st)

  unfoldable pub cancel_maker_quote : ℕ → Store W → Option (MakerQuote W) × Store W
  unfolding cancel_with
  cancel_maker_quote k st = cancel_with k st.cash (get_maker_quote k st.quotes) st

  module _ (submit : List (Call W) → Call W → Option Ack) where
    -- One leg after another; a throw counts as an error, and a leg without a token is left out.
    unfoldable pub place_legs : List (Order W) → List (Call W) → List Ack → List Ack × List (Call W)
    place_legs [] log acks = (acks, log)
    place_legs (o ∷ os) log acks =
        let ack : Ack = elim (submit log (place_order o)) [
          | none ↦ record { status = some (codes "ERROR") }
          | some a ↦ a
        ] in
        let skipped = place_legs os log acks in
        let sent = place_legs os (log ++ (place_order o ∷ [])) (acks ++ (ack ∷ [])) in
        if is_empty o.token_id then skipped else sent

    unfoldable pub all_ok : List Ack → Bool
    unfolding action_ok
    all_ok [] = true
    all_ok (a ∷ acks) = action_ok a && all_ok acks

    -- After the last of the cancels, of which `log` has the calls: the quote is cancelled.
    unfoldable pub close_quote :
        MakerQuote W → Desk W → List (Call W) → Option Ack → LiveResult W × Desk W
    unfolding cancel_maker_quote
    close_quote q desk log none = (threw, record desk { calls = log })
    close_quote q desk log (some a) =
        let left = (cancel_maker_quote q.id desk.store).1 in
        let reason = order_rejected (codes "maker quote placement failed (rolled back)") in
        (failed reason, record { store = left; calls = log })

    unfoldable pub cancel_complement : MakerQuote W → Desk W → Option Ack → LiveResult W × Desk W
    unfolding close_quote
    cancel_complement q desk none =
        close_quote q desk (desk.calls ++ (cancel_orders q.token_id ∷ [])) none
    cancel_complement q desk (some a) =
        let log = desk.calls ++ (cancel_orders q.token_id ∷ []) in
        let no = cancel_orders q.complement_token_id in
        if is_empty q.complement_token_id
        then close_quote q desk log (some a)
        else close_quote q desk (log ++ (no ∷ [])) (submit log no)

    -- After a leg that failed: both tokens are cancelled at the exchange, then the quote.
    unfoldable pub roll_back : MakerQuote W → Desk W → LiveResult W × Desk W
    unfolding cancel_complement
    roll_back q desk = cancel_complement q desk (submit desk.calls (cancel_orders q.token_id))

    unfoldable pub submit_legs : MakerQuote W → Quotes W → Desk W → LiveResult W × Desk W
    unfolding place_legs all_ok roll_back
    submit_legs q (inl e) desk = (threw, desk)
    submit_legs q (inr (bid, ask)) desk =
        let sent = place_legs (bid ∷ ask ∷ []) desk.calls [] in
        let after : Desk W = record { store = desk.store; calls = sent.1 } in
        if all_ok sent.0 then (placed q sent.0, after) else roll_back q after

    module _ (api : Api W) (chain : List (Bytes × W)) (micro : Option (W × W)) where
      -- `mid`.
      unfoldable pub anchor : MakerQuote W → W
      anchor q = if le q.entry_mid nil && ge q.entry_mid nil then q.last_mid else q.entry_mid

      -- The book of the first token, if it can be read; `micro` has the gate and the share of the
      -- lead, where the switch is on.
      unfoldable pub shift_for : MakerQuote W → OrderBook W → W
      unfolding anchor
      shift_for q book = elim micro [
        | none ↦ nil
        | some (gate, beta) ↦
            let sig = compute_book_signals book (anchor q) q.max_spread_c in
            let lead = sig.micro_price ⊖ anchor q in
            if sig.valid && ge (fabs lead ⊗ lit 100 0) gate then beta ⊗ lead else nil
      ]

      unfoldable pub live_quotes : MakerQuote W → Option (OrderBook W) → Quotes W
      unfolding anchor top_bid top_ask shift_for
      live_quotes q none =
          compute_two_sided_quotes_yes_no (anchor q) q.half_spread_c q.size q.tick q.max_spread_c
            q.token_id q.complement_token_id nil nil nil nil
      live_quotes q (some book) =
          compute_two_sided_quotes_yes_no (anchor q) q.half_spread_c q.size q.tick q.max_spread_c
            q.token_id q.complement_token_id (top_bid nil book.bids) (top_ask nil book.asks) nil
            (shift_for q book)

      unfoldable pub go_live :
          (EngineError W ⊎ MakerQuote W) × Store W → List (Call W) → LiveResult W × Desk W
      unfolding holds live_quotes submit_legs
      go_live (inl e, st) log = (failed e, record { store = st; calls = log })
      go_live (inr q, st) log =
          let desk : Desk W = record { store = st; calls = log } in
          let went = submit_legs q (live_quotes q (api.get_order_book q.token_id)) desk in
          if holds chain q.token_id || holds chain q.complement_token_id
          then (skipped_holding, desk)
          else went

      unfoldable pub place_maker_quote_live :
          Bytes → Bytes → MakerQuoteOpts W → Bytes → Desk W → LiveResult W × Desk W
      unfolding go_live
      place_maker_quote_live slug outcome opts stamp desk =
          let popts = record opts { cancel_efficiency = nil } in
          go_live (place_maker_quote api slug outcome popts stamp desk.store) desk.calls
