-- ===== src/Engine/Wired.antt =====
-- The engine of cpp/src/pmm/engine.cpp with the submitter of cpp/src/pmm/clob_submitter.cpp as its
-- exchange. The JSON object that carries a call from one to the other is left out.
use polymarket_live_maker.Prelude.{
  Bool, Bytes, Double, List, Option, [], ap, codes, false, if◌then◌else◌, inl, inr, lit, lt, refl,
  same_str, some, some-injective, subst, true, ℕ, ◌++◌, ◌∙◌, ◌∷◌, ◌≡◌, ◌⊎◌,
}
use polymarket_live_maker.Engine.Store.{MakerQuote, active_quotes}
use polymarket_live_maker.Engine.Place.{Api}
use polymarket_live_maker.Engine.Live.{
  Ack, Call, place_order, cancel_orders, flatten_position, Desk, action_ok,
}
use polymarket_live_maker.Engine.Accrue.{BookSource, Clock}
use polymarket_live_maker.Engine.AccrueLive.{LiveInput}
use polymarket_live_maker.Engine.AccrueLive.Rounds.{accrue_maker_rewards_live}
use polymarket_live_maker.Engine.AccrueLive.Statuses.{statuses, close}
use polymarket_live_maker.Engine.AccrueLive.Spoken.{cancels, AreAcked}
use polymarket_live_maker.Engine.AccrueLive.Careful.{IsCareful}
use polymarket_live_maker.Engine.AccrueLive.Retired.{
  IsSold, AreCareful, accrue_maker_rewards_live-AreCareful,
}
use polymarket_live_maker.Clob.Client.{Resp, Outside, ClobSubmitter, is_2xx, signed_http}
use polymarket_live_maker.Clob.Orders.{place}
use polymarket_live_maker.Clob.Flatten.{
  Sweep, Flattening, refused, flattened, flatten_partial, max_attempts, flatten,
}
use polymarket_live_maker.Clob.Flatten.Bounds.{IsSwept}
use polymarket_live_maker.Clob.Flatten.Loop.{fresh_sweep, flatten-IsSwept}
use polymarket_live_maker.Clob.Submit.{
  Outcome, cancelled, cancel_failed, swept, status_of, status_of_sweep, ack_of, outcome_of_place,
  cancel_all,
}

module _ {J W : Type 0} ⦃d : Double W⦄ (o : Outside J W) where
  -- operator() on the three actions of the engine, which names no order type.
  unfoldable pub answer : Call W → ClobSubmitter W → Outcome W × ClobSubmitter W
  unfolding place flatten cancel_all outcome_of_place
  answer (place_order ord) s =
      let r = place o ord.token_id ord.side ord.price ord.size (codes "GTC") s in
      (outcome_of_place r.0, r.1)
  answer (cancel_orders token) s = cancel_all o token s
  answer (flatten_position token side size) s =
      let r = flatten o token side size s in (swept r.0, r.1)

  -- The submitter after some calls.
  unfoldable pub after_calls : List (Call W) → ClobSubmitter W → ClobSubmitter W
  unfolding answer
  after_calls [] s = s
  after_calls (c ∷ cs) s = after_calls cs (answer c s).1

  after_calls-append :
      (log cs : List (Call W)) (s : ClobSubmitter W)
      → after_calls (log ++ cs) s ≡ after_calls cs (after_calls log s)
  unfolding after_calls
  after_calls-append [] cs s = refl
  after_calls-append (c ∷ log) cs s = after_calls-append log cs (answer c s).1

  unfoldable pub exchange : ClobSubmitter W → List (Call W) → Call W → Option Ack
  unfolding answer ack_of after_calls
  exchange s log c = some (ack_of (answer c (after_calls log s)).0)

  -- A cancel was answered with a status from 200 to 299; a sale left less than one share.
  unfoldable pub IsDone : Call W → Outcome W → Type 0
  IsDone (place_order ord) out = Unit
  IsDone (cancel_orders token) out = (r : Resp) × (out ≡ cancelled r) × (is_2xx r.status ≡ true)
  IsDone (flatten_position token side size) out =
      (v : Sweep W) × (out ≡ swept (flattened v)) × (lt v.remaining (lit 1 0) ≡ true)

  unfoldable pub AreDone : List (Call W) → ClobSubmitter W → Type 0
  unfolding answer IsDone
  AreDone [] s = Unit
  AreDone (c ∷ cs) s = IsDone c (answer c s).0 × AreDone cs (answer c s).1

  cancelled-IsDone :
      (b : Bool) (r : Resp) (token : Bytes)
      → is_2xx r.status ≡ b
      → action_ok (ack_of (let out : Outcome W = if b then cancelled r else cancel_failed r in out))
        ≡ true
      → IsDone (cancel_orders token) (if b then cancelled r else cancel_failed r)
  unfolding IsDone ack_of status_of action_ok same_str
  cancelled-IsDone true r token e ok = (r, refl, e)
  cancelled-IsDone false r token e ok = absurd (cc)

  flattened-IsDone :
      (n : ℕ) (v : Sweep W) (s : ClobSubmitter W) (r : Flattening W × ClobSubmitter W)
      (token side : Bytes) (size : W)
      → IsSwept n v s r
      → action_ok (ack_of (swept r.0)) ≡ true
      → IsDone (flatten_position token side size) (swept r.0)
  unfolding IsDone IsSwept ack_of status_of status_of_sweep action_ok same_str
  flattened-IsDone n v s (refused e, after) token side size h ok = absurd (cc)
  flattened-IsDone n v s (flattened w, after) token side size (sent, fills, small) ok =
      (w, refl, small)
  flattened-IsDone n v s (flatten_partial w, after) token side size h ok = absurd (cc)

  answer-IsDone :
      (c : Call W) (s : ClobSubmitter W)
      → action_ok (ack_of (answer c s).0) ≡ true
      → IsDone c (answer c s).0
  unfolding answer cancel_all IsDone
  answer-IsDone (place_order ord) s ok = tt
  answer-IsDone (cancel_orders token) s ok =
      let path = codes "/cancel-market-orders" in
      let body = o.dump_object ((codes "asset_id", token) ∷ (codes "market", []) ∷ []) in
      let r : Resp = (signed_http o (codes "DELETE") path path body s).0 in
      cancelled-IsDone (is_2xx r.status) r token refl ok
  answer-IsDone (flatten_position token side size) s ok =
      flattened-IsDone max_attempts (fresh_sweep o size) s (flatten o token side size s) token side
        size (flatten-IsSwept o token side size s) ok

  AreAcked-AreDone :
      (s : ClobSubmitter W) (log cs : List (Call W))
      → AreAcked (exchange s) log cs
      → AreDone cs (after_calls log s)
  unfolding AreAcked AreDone exchange
  AreAcked-AreDone s log [] h = tt
  AreAcked-AreDone s log (c ∷ cs) ((a, e, ok), h) =
      let same : ack_of (answer c (after_calls log s)).0 ≡ a = some-injective _ _ e in
      (
        answer-IsDone c (after_calls log s) (ap action_ok same ∙ ok),
        subst (λ x. AreDone cs x) (after_calls-append log (c ∷ []) s)
            (AreAcked-AreDone s (log ++ (c ∷ [])) cs h),
      )

  -- As `IsCareful`, with what the calls have done in place of their answers.
  unfoldable pub IsExecuted :
      LiveInput W → ClobSubmitter W → MakerQuote W → Desk W → Desk W → Type 0
  IsExecuted input s q b after =
      (more : List (Call W)) × (after.calls ≡ b.calls ++ more)
      × ((statuses after.store.quotes ≡ statuses b.store.quotes)
          ⊎ ((sold : List (Call W)) × (more ≡ cancels q ++ sold)
              × IsSold input q sold
              × AreDone more (after_calls b.calls s)
              × (statuses after.store.quotes ≡ close q.id (statuses b.store.quotes))))

  -- One quote after another.
  unfoldable pub AreExecuted :
      LiveInput W → ClobSubmitter W → List (MakerQuote W) → Desk W → Desk W → Type 0
  unfolding IsExecuted
  AreExecuted input s [] b after = after ≡ b
  AreExecuted input s (q ∷ qs) b after =
      (m : Desk W) × IsExecuted input s q b m × AreExecuted input s qs m after

  careful-IsExecuted :
      (input : LiveInput W) (s : ClobSubmitter W) (q : MakerQuote W) (b m : Desk W)
      → IsCareful (exchange s) (IsSold input q) q b m
      → IsExecuted input s q b m
  unfolding IsCareful IsExecuted
  careful-IsExecuted input s q b m (more, said, inl same) = (more, said, inl same)
  careful-IsExecuted input s q b m (more, said, inr (sold, all, right, acked, end)) =
      (more, said, inr (sold, all, right, AreAcked-AreDone s b.calls more acked, end))

  careful-AreExecuted :
      (crossing : W) (clock : Clock W) (input : LiveInput W) (s : ClobSubmitter W)
      (qs : List (MakerQuote W)) (b after : Desk W)
      → AreCareful (exchange s) crossing clock input qs b after
      → AreExecuted input s qs b after
  unfolding AreCareful AreExecuted
  careful-AreExecuted crossing clock input s [] b after h = h
  careful-AreExecuted crossing clock input s (q ∷ qs) b after (m, h, rest) = (
    m,
    careful-IsExecuted input s q b m h,
    careful-AreExecuted crossing clock input s qs m after rest,
  )

  -- With the CLOB submitter as the exchange and whatever the network replies: over a live accrual,
  -- quote after quote, either no row changes its status, or the rows with the quote's id are
  -- cancelled after its tokens were cancelled with a status from 200 to 299 and each sale of a
  -- position, with the new fills, left less than one share; without a sale no fill came and less
  -- than one share is held on each side, or both positions are below a billionth.
  pub accrue_maker_rewards_live-AreExecuted :
      (s : ClobSubmitter W) (crossing : W) (clock : Clock W) (input : LiveInput W) (api : Api W)
      (source : Option (BookSource W)) (desk : Desk W)
      → AreExecuted input s
          (active_quotes desk.store.quotes)
          desk
          (accrue_maker_rewards_live (exchange s) crossing clock input api source desk).1
  accrue_maker_rewards_live-AreExecuted s crossing clock input api source desk =
      careful-AreExecuted crossing clock input s (active_quotes desk.store.quotes) desk _
        (accrue_maker_rewards_live-AreCareful (exchange s) crossing clock input api source desk)
