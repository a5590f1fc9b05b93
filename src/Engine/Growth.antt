-- ===== src/Engine/Growth.antt =====
-- How the rows of the quotes change: a row keeps its id and capital, and stays cancelled.
use polymarket_live_maker.Prelude.{
  List, Option, [], append-nil, arith, either, inl, inr, none, refl, some, subst, suc, ℕ, ◌++◌,
  ◌==◌, ◌∙◌, ◌∷◌, ◌≡◌, ◌≤◌, ◌⊎◌,
}
use polymarket_live_maker.Engine.Store.{
  MakerQuote, QuoteStatus, active, cancelled, AccrualUpdate, Store, is_active, update_cash,
  get_maker_quote, update_where, cancel_found, cancel_row, accrued, update_maker_quote_accrual,
}
use polymarket_live_maker.Engine.Rows.{AreBelow, closed}

QuoteStatus-cases : (s : QuoteStatus) → (s ≡ active) ⊎ (s ≡ cancelled)
QuoteStatus-cases active = inl refl
QuoteStatus-cases cancelled = inr refl

ended_trans :
    (s t u : QuoteStatus)
    → (s ≡ active) ⊎ (t ≡ cancelled)
    → (t ≡ active) ⊎ (u ≡ cancelled)
    → (s ≡ active) ⊎ (u ≡ cancelled)
ended_trans s t u (inl a) g = inl a
ended_trans s t u (inr b) (inr c) = inr c
ended_trans s t u (inr b) (inl a) = absurd (grind arith)

module _ {W : Type 0} where
  -- The same row later: its id and capital, and cancelled for good.
  unfoldable pub Keeps : MakerQuote W → MakerQuote W → Type 0
  Keeps q r =
      (r.id ≡ q.id)
      × (r.committed_capital ≡ q.committed_capital)
      × ((q.status ≡ active) ⊎ (r.status ≡ cancelled))

-- The rows of a table, kept in their places, and perhaps new ones after them.
pub data Grows {W : Type 0} : List (MakerQuote W) → List (MakerQuote W) → Type 0 where
  fresh : (rs : List (MakerQuote W)) → Grows [] rs
  kept :
      (q r : MakerQuote W) (qs rs : List (MakerQuote W))
      → Keeps q r
      → Grows qs rs
      → Grows (q ∷ qs) (r ∷ rs)

module _ {W : Type 0} where
  Keeps-refl : (q : MakerQuote W) → Keeps q q
  unfolding Keeps
  Keeps-refl q = (refl, refl, QuoteStatus-cases q.status)

  Keeps-trans : (p q r : MakerQuote W) → Keeps p q → Keeps q r → Keeps p r
  unfolding Keeps
  Keeps-trans p q r (i, c, f) (j, e, g) = (j ∙ i, e ∙ c, ended_trans p.status q.status r.status f g)

  Grows-append : (qs rs : List (MakerQuote W)) → Grows qs (qs ++ rs)
  Grows-append [] rs = fresh rs
  Grows-append (q ∷ qs) rs = kept q q qs (qs ++ rs) (Keeps-refl q) (Grows-append qs rs)

  Grows-trans : (ps qs rs : List (MakerQuote W)) → Grows ps qs → Grows qs rs → Grows ps rs
  Grows-trans [] qs rs (fresh _) more = fresh rs
  Grows-trans (p ∷ ps) [] rs h more = elim h [ ]
  Grows-trans (p ∷ ps) (q ∷ qs) [] h more = elim more [ ]
  Grows-trans (p ∷ ps) (q ∷ qs) (r ∷ rs) (kept _ _ _ _ h g) (kept _ _ _ _ k m) =
      kept p r ps rs (Keeps-trans p q r h k) (Grows-trans ps qs rs g m)

  update_where-Grows :
      (change : MakerQuote W → MakerQuote W) (k : ℕ) (qs : List (MakerQuote W))
      → ((q : MakerQuote W) → Keeps q (change q))
      → Grows qs (update_where change k qs)
  unfolding update_where
  update_where-Grows change k [] h = fresh []
  update_where-Grows change k (q ∷ qs) h =
      kept q _ qs _ (either (Keeps q) (q.id == k) (change q) q (h q) (Keeps-refl q))
        (update_where-Grows change k qs h)

  update_where-AreBelow :
      (change : MakerQuote W → MakerQuote W) (n k : ℕ) (qs : List (MakerQuote W))
      → ((q : MakerQuote W) → Keeps q (change q))
      → AreBelow n qs
      → AreBelow n (update_where change k qs)
  unfolding update_where AreBelow Keeps
  update_where-AreBelow change n k [] h below = below
  update_where-AreBelow change n k (q ∷ qs) h (b, below) = (
    either (λ (r : MakerQuote W). r.id ≤ n) (q.id == k) (change q) q (rw (h q).0 b) b,
    update_where-AreBelow change n k qs h below,
  )

  -- What every operation keeps: the rows, and that no id is above the last one.
  unfoldable pub Advances : Store W → Store W → Type 0
  Advances st after =
      AreBelow st.last_id st.quotes
      → AreBelow after.last_id after.quotes × Grows st.quotes after.quotes

  pub Advances-refl : (st : Store W) → Advances st st
  unfolding Advances
  Advances-refl st below =
      (below, subst (λ qs. Grows st.quotes qs) (append-nil st.quotes) (Grows-append st.quotes []))

  pub Advances-trans : (p q r : Store W) → Advances p q → Advances q r → Advances p r
  unfolding Advances
  Advances-trans p q r f g below =
      let (b, h) = f below in let (c, k) = g b in (c, Grows-trans p.quotes q.quotes r.quotes h k)

  Advances-update :
      (change : MakerQuote W → MakerQuote W) (k : ℕ) (cash : Option W) (st : Store W)
      → ((q : MakerQuote W) → Keeps q (change q))
      → Advances st
          (record { cash = cash; quotes = update_where change k st.quotes; last_id = st.last_id })
  unfolding Advances
  Advances-update change k cash st h below = (
    update_where-AreBelow change st.last_id k st.quotes h below,
    update_where-Grows change k st.quotes h,
  )

  AreBelow-new :
      (n : ℕ) (qs : List (MakerQuote W)) (q : MakerQuote W)
      → AreBelow n qs
      → q.id ≡ suc n
      → AreBelow (suc n) (qs ++ (q ∷ []))
  unfolding AreBelow
  AreBelow-new n [] q below h = (omega arith, tt)
  AreBelow-new n (r ∷ qs) q (b, below) h = (omega arith, AreBelow-new n qs q below h)

  pub Advances-new :
      (cash : Option W) (st : Store W) (q : MakerQuote W)
      → q.id ≡ suc st.last_id
      → Advances st
          (record { cash = cash; quotes = st.quotes ++ (q ∷ []); last_id = suc st.last_id })
  unfolding Advances
  Advances-new cash st q h below =
      (AreBelow-new st.last_id st.quotes q below h, Grows-append st.quotes (q ∷ []))

  closed-Keeps : (q : MakerQuote W) → Keeps q (closed q)
  unfolding Keeps
  closed-Keeps q = (refl, refl, inr refl)

  accrued-Keeps : (u : AccrualUpdate W) (q : MakerQuote W) → Keeps q (accrued u q)
  unfolding Keeps accrued
  accrued-Keeps u q = (refl, refl, QuoteStatus-cases q.status)

  pub update_cash-Advances : (c : W) (st : Store W) → Advances st (update_cash c st)
  unfolding Advances update_cash
  update_cash-Advances c st = Advances-refl st

  cancel_found-Advances :
      (k : ℕ) (found : Option (MakerQuote W)) (st : Store W)
      → Advances st (cancel_found k found st).1
  unfolding cancel_found
  cancel_found-Advances k none st = Advances-refl st
  cancel_found-Advances k (some q) st =
      let left = update_where closed k st.quotes in
      either (λ (x : Option (MakerQuote W) × Store W). Advances st x.1) (is_active q)
        (get_maker_quote k left, record st { quotes = left }) (none, st)
        (Advances-update closed k st.cash st closed-Keeps) (Advances-refl st)

  pub cancel_row-Advances : (k : ℕ) (st : Store W) → Advances st (cancel_row k st).1
  unfolding cancel_row
  cancel_row-Advances k st = cancel_found-Advances k (get_maker_quote k st.quotes) st

  pub update_accrual-Advances :
      (k : ℕ) (u : AccrualUpdate W) (st : Store W)
      → Advances st (update_maker_quote_accrual k u st).1
  unfolding update_maker_quote_accrual
  update_accrual-Advances k u st = Advances-update (accrued u) k st.cash st (accrued-Keeps u)
