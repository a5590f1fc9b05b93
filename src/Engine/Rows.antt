-- ===== src/Engine/Rows.antt =====
-- The rows of the quotes: a new id is found in its own row only.
use polymarket_live_maker.Prelude.{
  All, List, Option, [], ap, arith, false, refl, some, suc, true, ℕ, ◌++◌, ◌==◌, ◌∷◌, ◌≡◌, ◌≤◌,
}
use polymarket_live_maker.Engine.Store.{
  MakerQuote, active, cancelled, is_active, is_active_status, cancel_found, get_maker_quote,
  update_where, cancel_row,
}

module _ {W : Type 0} where
  -- The ids so far.
  unfoldable pub AreBelow : ℕ → List (MakerQuote W) → Type 0
  AreBelow n qs = All (λ q. q.id ≤ n) qs

  pub get-new :
      (n : ℕ) (qs : List (MakerQuote W)) (q : MakerQuote W)
      → AreBelow n qs
      → q.id ≡ suc n
      → get_maker_quote (suc n) (qs ++ (q ∷ [])) ≡ some q
  unfolding get_maker_quote AreBelow
  get-new n [] q below h = ground arith
  get-new n (r ∷ qs) q (b, below) h =
      let other : (r.id == suc n) ≡ false = ground arith in simp other (get-new n qs q below h)

  pub update-new :
      (change : MakerQuote W → MakerQuote W) (n : ℕ) (qs : List (MakerQuote W)) (q : MakerQuote W)
      → AreBelow n qs
      → q.id ≡ suc n
      → update_where change (suc n) (qs ++ (q ∷ [])) ≡ qs ++ (change q ∷ [])
  unfolding update_where AreBelow
  update-new change n [] q below h =
      let here : (q.id == suc n) ≡ true = ground arith in simp here refl
  update-new change n (r ∷ qs) q (b, below) h =
      let other : (r.id == suc n) ≡ false = ground arith in
      simp (other, update-new change n qs q below h) refl

  abbrev pub closed : MakerQuote W → MakerQuote W
  closed q = record q { status = cancelled }

  pub cancel_row-new :
      (cash : Option W) (n : ℕ) (qs : List (MakerQuote W)) (q : MakerQuote W)
      → AreBelow n qs
      → q.id ≡ suc n
      → q.status ≡ active
      → (cancel_row (suc n) (record { cash = cash; quotes = qs ++ (q ∷ []); last_id = suc n })).1
        ≡ record { cash = cash; quotes = qs ++ (closed q ∷ []); last_id = suc n }
  unfolding cancel_row cancel_found
  cancel_row-new cash n qs q below h on =
      let live : is_active q ≡ true = ap is_active_status on in
      simp (get-new n qs q below h, live, update-new closed n qs q below h) refl
