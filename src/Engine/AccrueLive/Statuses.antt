-- ===== src/Engine/AccrueLive/Statuses.antt =====
-- What the writes of accrue_maker_rewards_live of cpp/src/pmm/engine.cpp do to the status of the rows.
use polymarket_live_maker.Prelude.{
  Bool-cases, Double, List, Option, [], ap, arith, either, fmax, if◌then◌else◌, inl, inr, nil, none,
  refl, some, some-injective, subst, sym, ℕ, ◌==◌, ◌∙◌, ◌∷◌, ◌≡◌, ◌⊎◌, ◌⊕◌, ◌⊖◌,
}
use polymarket_live_maker.Engine.Store.{
  MakerQuote, QuoteStatus, cancelled, AccrualUpdate, Store, is_active, update_cash, get_maker_quote,
  update_where, cancel_found, cancel_row, accrued, update_maker_quote_accrual,
}
use polymarket_live_maker.Engine.Rows.{closed}
use polymarket_live_maker.Engine.Accrue.{with_account, credit_maker, exit_maker_quote}
use polymarket_live_maker.Engine.AccrueLive.{persist, close_read, retire, with_inventories}

module _ {W : Type 0} where
  -- The rows, by their ids.
  unfoldable pub statuses : List (MakerQuote W) → List (ℕ × QuoteStatus)
  statuses [] = []
  statuses (q ∷ qs) = (q.id, q.status) ∷ statuses qs

-- The rows with an id are cancelled.
unfoldable pub close : ℕ → List (ℕ × QuoteStatus) → List (ℕ × QuoteStatus)
close k [] = []
close k ((i, s) ∷ rest) = (i, if i == k then cancelled else s) ∷ close k rest

module _ {W : Type 0} where
  get-id :
      (k : ℕ) (qs : List (MakerQuote W)) (r : MakerQuote W)
      → get_maker_quote k qs ≡ some r
      → r.id ≡ k
  unfolding get_maker_quote
  get-id k [] r h = absurd (cc)
  get-id k (q ∷ qs) r h = elim (Bool-cases (q.id == k)) [
    | inl e ↦
        let first : get_maker_quote k (q ∷ qs) ≡ some q = simp e refl in
        let same : q ≡ r = some-injective q r (sym first ∙ h) in
        let here : q.id ≡ k = ground arith in sym (ap (λ (x : MakerQuote W). x.id) same) ∙ here
    | inr e ↦
        let later : get_maker_quote k (q ∷ qs) ≡ get_maker_quote k qs = simp e refl in
        get-id k qs r (sym later ∙ h)
  ]

  statuses-accrued :
      (u : AccrualUpdate W) (k : ℕ) (qs : List (MakerQuote W))
      → statuses (update_where (accrued u) k qs) ≡ statuses qs
  unfolding statuses update_where accrued
  statuses-accrued u k [] = refl
  statuses-accrued u k (q ∷ qs) =
      either
        (λ (x : MakerQuote W).
          (x.id, x.status) ∷ statuses (update_where (accrued u) k qs)
          ≡ (q.id, q.status) ∷ statuses qs)
        (q.id == k) (accrued u q) q (ap (λ rest. (q.id, q.status) ∷ rest) (statuses-accrued u k qs))
        (ap (λ rest. (q.id, q.status) ∷ rest) (statuses-accrued u k qs))

  statuses-closed :
      (k : ℕ) (qs : List (MakerQuote W))
      → statuses (update_where closed k qs) ≡ close k (statuses qs)
  unfolding statuses update_where close
  statuses-closed k [] = refl
  statuses-closed k (q ∷ qs) = elim (Bool-cases (q.id == k)) [
    | inl e ↦ simp (e, statuses-closed k qs) refl
    | inr e ↦ simp (e, statuses-closed k qs) refl
  ]

  -- No row changes its status, or those with an id are cancelled.
  unfoldable pub Ended : ℕ → Store W → Store W → Type 0
  Ended k st after =
      (statuses after.quotes ≡ statuses st.quotes)
      ⊎ (statuses after.quotes ≡ close k (statuses st.quotes))

  pub Ended-after :
      (k : ℕ) (st mid after : Store W)
      → statuses mid.quotes ≡ statuses st.quotes
      → Ended k mid after
      → Ended k st after
  unfolding Ended
  Ended-after k st mid after same (inl e) = inl (e ∙ same)
  Ended-after k st mid after same (inr e) = inr (e ∙ ap (close k) same)

  cancel_found-Ended :
      (k : ℕ) (found : Option (MakerQuote W)) (st : Store W)
      → Ended k st (cancel_found k found st).1
  unfolding cancel_found Ended
  cancel_found-Ended k none st = inl refl
  cancel_found-Ended k (some q) st =
      let left = update_where closed k st.quotes in
      either (λ (x : Option (MakerQuote W) × Store W). Ended k st x.1) (is_active q)
        (get_maker_quote k left, record st { quotes = left }) (none, st)
        (inr (statuses-closed k st.quotes)) (inl refl)

  module _ ⦃d : Double W⦄ where
    credited-quotes :
        (cash : Option W) (amount : W) (st : Store W)
        → (with_account cash (λ c. update_cash (c ⊕ amount) st) st).quotes ≡ st.quotes
    unfolding with_account update_cash
    credited-quotes none amount st = refl
    credited-quotes (some c) amount st = refl

    pub credit_maker-quotes :
        (amount : W) (st : Store W) → (credit_maker amount st).quotes ≡ st.quotes
    unfolding credit_maker
    credit_maker-quotes amount st = credited-quotes st.cash amount st

    exit_with-Ended :
        (q : MakerQuote W) (cash : Option W) (c : W → W) (st : Store W)
        → Ended q.id st (with_account cash (λ x. (cancel_row q.id (update_cash (c x) st)).1) st)
    unfolding with_account cancel_row update_cash Ended
    exit_with-Ended q none c st = inl refl
    exit_with-Ended q (some x) c st = cancel_found-Ended q.id _ (update_cash (c x) st)

    close_read-Ended :
        (k : ℕ) (found : Option (MakerQuote W)) (st : Store W) (cost : W)
        → ((r : MakerQuote W) → found ≡ some r → r.id ≡ k)
        → Ended k st (close_read (found, st) cost)
    unfolding close_read exit_maker_quote Ended
    close_read-Ended k none st cost same = inl refl
    close_read-Ended k (some r) st cost same =
        subst (λ i. Ended i st (exit_maker_quote r cost st)) (same r refl)
          (exit_with-Ended r st.cash (λ x. x ⊕ r.committed_capital ⊖ fmax nil cost) st)

    pub statuses-persist :
        (q : MakerQuote W) (u : AccrualUpdate W) (st : Store W)
        → statuses (persist q u st).quotes ≡ statuses st.quotes
    unfolding persist update_maker_quote_accrual
    statuses-persist q u st = statuses-accrued u q.id st.quotes

    pub retire-Ended :
        (q : MakerQuote W) (u : AccrualUpdate W) (cost : W) (st : Store W)
        → Ended q.id st (retire q u cost st)
    unfolding retire update_maker_quote_accrual Ended
    retire-Ended q u cost st =
        let u0 = with_inventories nil nil u in
        let left = update_where (accrued u0) q.id st.quotes in
        let read = record st { quotes = left } in
        Ended-after q.id st read (close_read (get_maker_quote q.id left, read) cost)
          (statuses-accrued u0 q.id st.quotes)
          (close_read-Ended q.id (get_maker_quote q.id left) read cost
            (λ r e. get-id q.id left r e))
