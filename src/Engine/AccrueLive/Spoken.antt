-- ===== src/Engine/AccrueLive/Spoken.antt =====
-- What is said to the exchange before a quote of accrue_maker_rewards_live in cpp/src/pmm/engine.cpp may
-- end: calls whose answers count.
use polymarket_live_maker.Prelude.{
  Bool, Bytes, Double, List, Option, [], ap, append-nil, append_assoc, arith, codes, fabs, false,
  gt, if◌then◌else◌, is_empty, lit, lt, nil, none, refl, some, some-injective, subst, sym, true,
  ◌&&◌, ◌++◌, ◌∙◌, ◌∷◌, ◌≡◌,
}
use polymarket_live_maker.Engine.Store.{MakerQuote}
use polymarket_live_maker.Engine.Live.{Ack, Call, cancel_orders, flatten_position, Desk, action_ok}
use polymarket_live_maker.Engine.Act.{Act, ◌>>=◌, pure, send, then_act}
use polymarket_live_maker.Engine.AccrueLive.{ask_ok, cancel_both, flatten_live, flatten_complement}

module _ {W : Type 0} where
  -- The cancels of both tokens.
  unfoldable pub cancels : MakerQuote W → List (Call W)
  cancels q =
      cancel_orders q.token_id
      ∷ (if is_empty q.complement_token_id then [] else cancel_orders q.complement_token_id ∷ [])

  -- The exchange answered each call, and with neither ERROR nor REJECTED.
  unfoldable pub AreAcked :
      (List (Call W) → Call W → Option Ack) → List (Call W) → List (Call W) → Type 0
  AreAcked submit log [] = Unit
  AreAcked submit log (c ∷ cs) =
      ((a : Ack) × (submit log c ≡ some a) × (action_ok a ≡ true))
      × AreAcked submit (log ++ (c ∷ [])) cs

  module _ ⦃d : Double W⦄ where
    unfoldable pub sale : Bytes → W → List (Call W)
    sale token inventory =
        if lt (fabs inventory) (lit 1 9)
        then []
        else (flatten_position token (if gt inventory nil then codes "SELL" else codes "BUY")
              (fabs inventory)
            ∷ [])

    unfoldable pub complement_sale : MakerQuote W → W → List (Call W)
    unfolding sale
    complement_sale q inventory =
        if is_empty q.complement_token_id then [] else sale q.complement_token_id inventory

  module _ ⦃d : Double W⦄ (submit : List (Call W) → Call W → Option Ack) where
    AreAcked-append :
        (log cs more : List (Call W))
        → AreAcked submit log cs
        → AreAcked submit (log ++ cs) more
        → AreAcked submit log (cs ++ more)
    unfolding AreAcked
    AreAcked-append log [] more h k = subst (λ l. AreAcked submit l more) (append-nil log) k
    AreAcked-append log (c ∷ cs) more (one, h) k = (
      one,
      AreAcked-append (log ++ (c ∷ [])) cs more h
          (subst (λ l. AreAcked submit l more) (sym (append_assoc log (c ∷ []) cs)) k),
    )

    -- No row was written; if the answer is true then the calls are the given ones, and acknowledged.
    unfoldable pub Spoken : Desk W → List (Call W) → Option Bool × Desk W → Type 0
    Spoken b cs r =
        (r.1.store ≡ b.store)
        × (more : List (Call W)) × (r.1.calls ≡ b.calls ++ more)
        × (r.0 ≡ some true → (more ≡ cs) × AreAcked submit b.calls cs)

    answered-Spoken :
        (b : Desk W) (c : Call W) (r : Option Ack)
        → submit b.calls c ≡ r
        → Spoken b
            (c ∷ [])
            (then_act (r, record b { calls = b.calls ++ (c ∷ []) }) (λ a. pure (action_ok a)))
    unfolding Spoken then_act AreAcked
    answered-Spoken b c none h = (refl, c ∷ [], refl, λ e. absurd (cc))
    answered-Spoken b c (some a) h =
        (refl, c ∷ [], refl, λ e. (refl, ((a, h, some-injective _ _ e), tt)))

    ask_ok-Spoken : (c : Call W) (b : Desk W) → Spoken b (c ∷ []) (ask_ok submit c b)
    unfolding ask_ok send
    ask_ok-Spoken c b = answered-Spoken b c (submit b.calls c) refl

    silent-Spoken : (b : Desk W) → Spoken b [] (some true, b)
    unfolding Spoken AreAcked
    silent-Spoken b = (refl, [], sym (append-nil b.calls), λ e. (refl, tt))

    -- No row was written, and the calls before are kept.
    unfoldable pub Heard : Desk W → Desk W → Type 0
    Heard b m = (m.store ≡ b.store) × (more : List (Call W)) × (m.calls ≡ b.calls ++ more)

    pub Heard-trans : (b m n : Desk W) → Heard b m → Heard m n → Heard b n
    unfolding Heard
    Heard-trans b m n (kept, first, said) (kept2, second, said2) = (
      kept2 ∙ kept,
      first ++ second,
      said2 ∙ ap (λ l. l ++ second) said ∙ append_assoc b.calls first second,
    )

    pub Spoken-Heard :
        (b : Desk W) (cs : List (Call W)) (r : Option Bool × Desk W) → Spoken b cs r → Heard b r.1
    unfolding Spoken Heard
    Spoken-Heard b cs r (kept, more, said, ok) = (kept, more, said)

    thrown-Spoken : (b m : Desk W) (cs : List (Call W)) → Heard b m → Spoken b cs (none, m)
    unfolding Spoken Heard
    thrown-Spoken b m cs (kept, more, said) = (kept, more, said, λ e. absurd (cc))

    -- One answer after another: where it is true both were.
    pub Spoken-then :
        (b m n : Desk W) (cs more : List (Call W)) (x y z : Bool)
        → (z ≡ true → (x ≡ true) × (y ≡ true))
        → Spoken b cs (some x, m)
        → Spoken m more (some y, n)
        → Spoken b (cs ++ more) (some z, n)
    unfolding Spoken
    Spoken-then b m n cs more x y z both (kept, first, said, ok) (kept2, second, said2, ok2) = (
      kept2 ∙ kept,
      first ++ second,
      said2 ∙ ap (λ l. l ++ second) said ∙ append_assoc b.calls first second,
      λ e.
          let (yes_x, yes_y) = both (some-injective _ _ e) in
          let (same, acked) = ok (ap (λ (v : Bool). some v) yes_x) in
          let (same2, acked2) = ok2 (ap (λ (v : Bool). some v) yes_y) in
          let log : m.calls ≡ b.calls ++ cs = said ∙ ap (λ l. b.calls ++ l) same in
          (
            rw (same, same2) refl,
            AreAcked-append b.calls cs more acked (subst (λ l. AreAcked submit l more) log acked2),
          ),
    )

    -- What holds of each way on holds of the whole.
    pub speak :
        {B : Type 0} (P : Option B × Desk W → Type 0) (b : Desk W) (cs : List (Call W))
        (r : Option Bool × Desk W) (f : Bool → Act W B)
        → Spoken b cs r
        → ((m : Desk W) → Heard b m → P (none, m))
        → ((a : Bool) (m : Desk W) → Spoken b cs (some a, m) → P (f a m))
        → P (then_act r f)
    unfolding then_act
    speak P b cs (none, m) f h stop go = stop m (Spoken-Heard b cs (none, m) h)
    speak P b cs (some a, m) f h stop go = go a m h

    second_cancel-Spoken :
        (e : Bool) (c c2 : Call W) (a : Bool) (b m : Desk W)
        → Spoken b (c ∷ []) (some a, m)
        → Spoken b
            (c ∷ (if e then [] else c2 ∷ []))
            ((if e then pure a else (ask_ok submit c2 >>= λ x. pure (x && a))) m)
    second_cancel-Spoken true c c2 a b m h = h
    second_cancel-Spoken false c c2 a b m h =
        speak (Spoken b (c ∷ c2 ∷ [])) m (c2 ∷ []) (ask_ok submit c2 m) _ (ask_ok-Spoken c2 m)
          (λ n g. thrown-Spoken b n _ (Heard-trans b m n (Spoken-Heard b _ (some a, m) h) g))
          (λ x n g. Spoken-then b m n (c ∷ []) (c2 ∷ []) a x (x && a) (λ e. ground arith) h g)

    pub cancel_both-Spoken :
        (q : MakerQuote W) (b : Desk W) → Spoken b (cancels q) (cancel_both submit q b)
    unfolding cancel_both cancels
    cancel_both-Spoken q b =
        let c = cancel_orders q.token_id in
        speak (Spoken b (cancels q)) b (c ∷ []) (ask_ok submit c b) _ (ask_ok-Spoken c b)
          (λ m h. thrown-Spoken b m _ h)
          (λ a m h.
            second_cancel-Spoken (is_empty q.complement_token_id) c
              (cancel_orders q.complement_token_id) a b m h)

    sale_if-Spoken :
        (e : Bool) (c : Call W) (b : Desk W)
        → Spoken b (if e then [] else c ∷ []) ((if e then pure true else ask_ok submit c) b)
    sale_if-Spoken true c b = silent-Spoken b
    sale_if-Spoken false c b = ask_ok-Spoken c b

    pub flatten_live-Spoken :
        (token : Bytes) (inventory : W) (b : Desk W)
        → Spoken b (sale token inventory) (flatten_live submit token inventory b)
    unfolding flatten_live sale
    flatten_live-Spoken token inventory b = sale_if-Spoken (lt (fabs inventory) (lit 1 9)) _ b

    complement_if-Spoken :
        (e : Bool) (token : Bytes) (inventory : W) (b : Desk W)
        → Spoken b
            (if e then [] else sale token inventory)
            ((if e then pure true else flatten_live submit token inventory) b)
    complement_if-Spoken true token inventory b = silent-Spoken b
    complement_if-Spoken false token inventory b = flatten_live-Spoken token inventory b

    pub flatten_complement-Spoken :
        (q : MakerQuote W) (inventory : W) (b : Desk W)
        → Spoken b (complement_sale q inventory) (flatten_complement submit q inventory b)
    unfolding flatten_complement complement_sale
    flatten_complement-Spoken q inventory b =
        complement_if-Spoken (is_empty q.complement_token_id) q.complement_token_id inventory b
