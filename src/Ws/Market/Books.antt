-- ===== src/Ws/Market/Books.antt =====
-- Invariants of the cached books: what is shown is positive, and what is dropped.
use polymarket_live_maker.Prelude.{
  All, Bool, Bool-cases, Bytes, Double, List, Option, Option-cases, StringSet, [], arith, contains,
  erase, false, find, find-erase, gt, if_false, if◌then◌else◌, inl, inr, is_empty, nil, none, refl,
  same_str, same_str_sound, some, subst, sym, true, ◌||◌, ◌∙◌, ◌∷◌, ◌≡◌,
}
use polymarket_live_maker.OrderBook.{OrderBook}
use polymarket_live_maker.Ws.Market.{
  LevelMap, Levels, MarketChannel, positive_levels, book_of, get_book, drop_books,
}

moved_to :
    (s : StringSet) (k j : Bytes) {b : Bool}
    → same_str k j ≡ true
    → contains j s ≡ b
    → contains k s ≡ b
moved_to s k j {b} e h = subst (λ x. contains x s ≡ b) (sym (same_str_sound k j e)) h

apart :
    (s : StringSet) (k j : Bytes)
    → contains k s ≡ true
    → contains j s ≡ false
    → same_str k j ≡ false
apart s k j h e = elim (Bool-cases (same_str k j)) [
  | inl q ↦ absurd (let off = moved_to s k j q e in cc)
  | inr q ↦ q
]

module _ {W : Type 0} ⦃d : Double W⦄ where
  -- The books of the wanted tokens stay as they are, and no other does.
  pub drop_books-find :
      (wanted : StringSet) (levels : List (Bytes × Levels W)) (ts : List (Bytes × W)) (k : Bytes)
      → find k (drop_books wanted levels ts).0 ≡ (if contains k wanted then find k levels else none)
  unfolding drop_books find
  drop_books-find wanted [] ts k = ground arith
  drop_books-find wanted ((j, lv) ∷ levels) ts k = elim (Bool-cases (contains j wanted)) [
    | inl e ↦ elim (Bool-cases (same_str k j)) [
      | inl s ↦ simp (e, s, moved_to wanted k j s e) refl
      | inr s ↦ simp (e, s, drop_books-find wanted levels ts k) refl
    ]
    | inr e ↦ elim (Bool-cases (same_str k j)) [
      | inl s ↦
          simp (e, s, moved_to wanted k j s e, drop_books-find wanted levels (erase j ts) k) refl
      | inr s ↦ simp (e, s, drop_books-find wanted levels (erase j ts) k) refl
    ]
  ]

  pub drop_books-ts :
      (wanted : StringSet) (levels : List (Bytes × Levels W)) (ts : List (Bytes × W)) (k : Bytes)
      → contains k wanted ≡ true
      → find k (drop_books wanted levels ts).1 ≡ find k ts
  unfolding drop_books
  drop_books-ts wanted [] ts k h = refl
  drop_books-ts wanted ((j, lv) ∷ levels) ts k h = elim (Bool-cases (contains j wanted)) [
    | inl e ↦ simp e (drop_books-ts wanted levels ts k h)
    | inr e ↦ simp e (
        drop_books-ts wanted levels (erase j ts) k h
        ∙ find-erase j k ts
        ∙ if_false (same_str k j) none (find k ts) (apart wanted k j h e))
  ]

  positive_levels-gt : (m : LevelMap W) → All (λ l. gt l.size nil ≡ true) (positive_levels m)
  unfolding positive_levels
  positive_levels-gt [] = tt
  positive_levels-gt ((p, s) ∷ m) = elim (Bool-cases (gt s nil)) [
    | inl e ↦ simp e (refl, positive_levels-gt m)
    | inr e ↦ simp e (positive_levels-gt m)
  ]

  -- A book that can be traded on: both sides, and no empty level.
  IsTradable : Option (OrderBook W) → Type 0
  IsTradable none = Unit
  IsTradable (some ob) =
      (is_empty ob.bids ≡ false)
      × (is_empty ob.asks ≡ false)
      × All (λ l. gt l.size nil ≡ true) ob.bids
      × All (λ l. gt l.size nil ≡ true) ob.asks

  book_of-IsTradable : (lv : Levels W) → IsTradable (book_of lv)
  unfolding book_of IsTradable
  book_of-IsTradable lv =
      let bids = positive_levels lv.bids in
      let asks = positive_levels lv.asks in
      elim (Bool-cases (is_empty lv.bids || is_empty lv.asks)) [
        | inl e ↦ simp e tt
        | inr e ↦ elim (Bool-cases (is_empty bids)) [
          | inl b ↦ simp (e, b) tt
          | inr b ↦ elim (Bool-cases (is_empty asks)) [
            | inl a ↦ simp (e, b, a) tt
            | inr a ↦
                simp (e, b, a) (refl, refl, positive_levels-gt lv.bids, positive_levels-gt lv.asks)
          ]
        ]
      ]

  -- A book that is handed out has both sides, and each of its levels has a positive size.
  get_book-IsTradable : (token : Bytes) (ch : MarketChannel W) → IsTradable (get_book token ch)
  unfolding get_book IsTradable
  get_book-IsTradable token ch = elim (Option-cases (find token ch.levels)) [
    | inl e ↦ rw (e, get_book) tt
    | inr (lv, e) ↦ rw (e, get_book) (book_of-IsTradable lv)
  ]
