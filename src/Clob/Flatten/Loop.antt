-- ===== src/Clob/Flatten/Loop.antt =====
-- The loop of flatten, round by round.
use polymarket_live_maker.Prelude.{
  Bool, Bool-cases, Bytes, Double, Option, [], append-nil, arith, codes, either, ge, gt, if_false,
  if_true, inl, inr, lit, lt, nil, none, refl, same_str, some, subst, suc, sym, zero, ℕ, ◌+◌, ◌∙◌,
  ◌∷◌, ◌≡◌, ◌⊎◌,
}
use polymarket_live_maker.Clob.Amounts.{OrderAmounts, RoundConfig}
use polymarket_live_maker.Clob.Client.{
  Resp, Outside, ClobSubmitter, http, signed_http, fetch_tick_size, fetch_neg_risk,
}
use polymarket_live_maker.Clob.Client.Gets.{
  Asks-trans, fetch_tick_size-Asks, fetch_neg_risk-Asks, fetch_marketable_price-Asks,
}
use polymarket_live_maker.Clob.Orders.{OrderError, Signed, post_order, order_filled_shares}
use polymarket_live_maker.Clob.Flatten.{
  sweep_amounts, sweep_price, Sweep, Flattening, max_attempts, note_own, sweep_reply, read_sweep,
  sweep_once, sweep_attempt, price_now, finish_sweep, after_attempt, sweep_loop, flatten,
}
use polymarket_live_maker.Clob.Flatten.Bounds.{
  posts, Sends, Sends-trans, Sends-weaken, Asks-Sends, note_own-log, take_off, add_up, Fills,
  Fills-refl, IsSwept, IsSwept-after,
}

one_more : (n : ℕ) → 1 + n ≡ suc n
one_more n = omega arith

module _ {J W : Type 0} ⦃d : Double W⦄ (o : Outside J W) where
  sweep_reply-Fills :
      (is_buy : Bool) (r : Resp) (v : Sweep W) (reply : Option J)
      → Fills 1 v (sweep_reply o is_buy r v reply).0
  unfolding sweep_reply Fills take_off add_up
  sweep_reply-Fills is_buy r v none = ([], omega arith, tt, refl, refl)
  sweep_reply-Fills is_buy r v (some j) =
      let made : W = order_filled_shares o j is_buy in
      elim (Bool-cases (gt made nil)) [
        | inl e ↦ (made ∷ [], omega arith, (e, tt), if_true _ _ _ e, if_true _ _ _ e)
        | inr e ↦ ([], omega arith, tt, if_false _ _ _ e, if_false _ _ _ e)
      ]

  post_order-Sends :
      (amt : OrderAmounts) (token : Bytes) (is_buy : Bool) (kind : Bytes) (signed : Signed)
      (s : ClobSubmitter W)
      → Sends 1 s (post_order o amt token is_buy kind signed s).1
  unfolding post_order signed_http http Sends posts same_str
  post_order-Sends amt token is_buy kind signed s = (_, refl, ground arith)

  Sends-log : (n : ℕ) (s t u : ClobSubmitter W) → u.log ≡ t.log → Sends n s t → Sends n s u
  unfolding Sends
  Sends-log n s t u same (sent, l, h) = (sent, same ∙ l, h)

  Sends-refl : (n : ℕ) (s : ClobSubmitter W) → Sends n s s
  unfolding Sends posts
  Sends-refl n s = ([], sym (append-nil s.log), omega arith)

  -- What an attempt may do.
  unfoldable Steps : Sweep W → ClobSubmitter W → OrderError ⊎ (Sweep W × ClobSubmitter W) → Type 0
  Steps v s (inl e) = Unit
  Steps v s (inr (w, after)) = Fills 1 v w × Sends 1 s after

  module _ (token : Bytes) (is_buy neg_risk : Bool) (tick : W) (rc : RoundConfig) where
    sweep_once-Steps :
        (amt : OrderAmounts) (r : OrderError ⊎ Signed) (v : Sweep W) (s t : ClobSubmitter W)
        → Sends 0 s t
        → Steps v s (sweep_once o token is_buy neg_risk tick rc amt r v t)
    unfolding sweep_once read_sweep Steps
    sweep_once-Steps amt (inl e) v s t h = tt
    sweep_once-Steps amt (inr signed) v s t h =
        let r = post_order o amt token is_buy (codes "FAK") signed t in
        let after = read_sweep o is_buy r.0 v in
        let sent = Sends-trans 0 1 s t r.1 h (post_order-Sends amt token is_buy _ signed t) in
        (
          sweep_reply-Fills is_buy r.0 v (o.lib.parse r.0.body),
          either (Sends 1 s) (gt after.1 nil) (note_own after.0.last_order_id r.1) r.1
              (Sends-log 1 s r.1 _ (note_own-log after.0.last_order_id r.1) sent) sent,
        )

    sweep_attempt-Steps :
        (attempt : ℕ) (v : Sweep W) (s : ClobSubmitter W) (price : Option W × ClobSubmitter W)
        → Sends 0 s price.1
        → Steps v s (sweep_attempt o token is_buy neg_risk tick rc attempt v price)
    unfolding sweep_attempt Steps
    sweep_attempt-Steps attempt v s (none, t) h =
        (Fills-refl 1 v, Sends-weaken 0 1 s t (omega arith) h)
    sweep_attempt-Steps attempt v s (some mkt_px, t) h =
        sweep_once-Steps
          (sweep_amounts o is_buy v.remaining (sweep_price o is_buy tick attempt mkt_px) rc) _ v s t
          h

    finish_sweep-IsSwept :
        (n : ℕ) (v : Sweep W) (s : ClobSubmitter W)
        → IsSwept n v s (finish_sweep o token is_buy neg_risk tick rc v s)
    unfolding finish_sweep IsSwept
    finish_sweep-IsSwept n v s = elim (Bool-cases (lt v.remaining (lit 1 0))) [
      | inl e ↦ rw e (Sends-refl n s, Fills-refl n v, e)
      | inr e ↦ rw e (Sends-refl n s, Fills-refl n v, e)
    ]

    after_attempt-IsSwept :
        (n : ℕ) (more : Sweep W → ClobSubmitter W → Flattening W × ClobSubmitter W) (v : Sweep W)
        (s t : ClobSubmitter W) (r : OrderError ⊎ (Sweep W × ClobSubmitter W))
        → ((w : Sweep W) (u : ClobSubmitter W) → IsSwept n w u (more w u))
        → Sends 0 s t
        → Steps v s r
        → IsSwept (suc n) v s (after_attempt o token is_buy neg_risk tick rc more t r)
    unfolding after_attempt IsSwept Steps
    after_attempt-IsSwept n more v s t (inl e) h asked steps =
        Sends-weaken 0 (suc n) s t (omega arith) asked
    after_attempt-IsSwept n more v s t (inr (w, u)) h asked (fills, sent) =
        subst (λ k. IsSwept k v s (more w u)) (one_more n)
          (IsSwept-after 1 n v w s u (more w u) fills sent (h w u))

    price_now-Sends :
        (s : ClobSubmitter W) → Sends 0 s (price_now o token is_buy neg_risk tick rc s).1
    unfolding price_now
    price_now-Sends s = Asks-Sends 0 s _ (fetch_marketable_price-Asks o token _ s)

    sweep_loop-IsSwept :
        (rounds attempt : ℕ) (v : Sweep W) (s : ClobSubmitter W)
        → IsSwept rounds v s (sweep_loop o token is_buy neg_risk tick rc rounds attempt v s)
    unfolding sweep_loop
    sweep_loop-IsSwept zero attempt v s = finish_sweep-IsSwept 0 v s
    sweep_loop-IsSwept (suc rounds) attempt v s =
        let price = price_now o token is_buy neg_risk tick rc s in
        let loop = sweep_loop o token is_buy neg_risk tick rc rounds (attempt + 1) in
        let tried = sweep_attempt o token is_buy neg_risk tick rc attempt v price in
        either (IsSwept (suc rounds) v s) (ge v.remaining (lit 1 0))
          (after_attempt o token is_buy neg_risk tick rc loop price.1 tried) _
          (after_attempt-IsSwept rounds loop v s price.1 tried
            (λ w u. sweep_loop-IsSwept rounds (attempt + 1) w u) (price_now-Sends s)
            (sweep_attempt-Steps attempt v s price (price_now-Sends s)))
          (finish_sweep-IsSwept (suc rounds) v s)

  -- The variables with which the loop begins.
  abbrev pub fresh_sweep : W → Sweep W
  fresh_sweep size = record {
    remaining = size;
    total_filled = nil;
    last_order_id = [];
    last_http = 0;
    last_resp = [];
  }

  -- Whatever the network replies, flatten ends after it has sent at most six orders. The fills that
  -- it counts are at most six, each positive; what remains is the size less each of them in turn,
  -- and the total is their sum. It reports a flat position exactly if less than one share remains,
  -- unless an order could not be made.
  pub flatten-IsSwept :
      (token side : Bytes) (size : W) (s : ClobSubmitter W)
      → IsSwept max_attempts (fresh_sweep size) s (flatten o token side size s)
  unfolding flatten
  flatten-IsSwept token side size s =
      let tick = fetch_tick_size o token s in
      let neg = fetch_neg_risk o token tick.1 in
      let asked =
        Asks-trans s tick.1 neg.1 (fetch_tick_size-Asks o token s)
          (fetch_neg_risk-Asks o token tick.1) in
      IsSwept-after 0 max_attempts (fresh_sweep size) (fresh_sweep size) s neg.1 _
        (Fills-refl 0 (fresh_sweep size)) (Asks-Sends 0 s neg.1 asked)
        (sweep_loop-IsSwept token _ neg.0 _ _ max_attempts 1 (fresh_sweep size) neg.1)
