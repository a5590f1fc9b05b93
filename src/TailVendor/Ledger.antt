-- ===== src/TailVendor/Ledger.antt =====
-- One step of the placing loop, the rule for the loop, and money counted from the actions alone.
use polymarket_live_maker.Prelude.{
  All, Bool, Bool-cases, Bytes, Double, List, Option, Option-cases, [], ap, arith, false, find,
  if◌then◌else◌, inl, inr, none, not, put, reaches, refl, some, suc, sym, true, ℕ, ◌&&◌, ◌++◌, ◌||◌,
  ◌∙◌, ◌∷◌, ◌≡◌, ◌⊎◌, ◌⊕◌, ◌⊗◌,
}
use polymarket_live_maker.TailVendor.{Candidate, Config, Quote}
use polymarket_live_maker.TailVendor.Guards.{decide-IsQuote}
use polymarket_live_maker.TailVendor.Plan.{
  OpenOrder, cancel, place, Action, Ledger, Round, Cands, Kept, is_some, same_bool, cancel_reason,
  sweep_open, place_action, place_quote, quote_for, consider, place_loop,
}

module _ {W : Type 0} ⦃d : Double W⦄ where
  -- The table is keyed by the tokens of its rows, one row a token.
  abbrev pub IsRow : Cands W → Bytes × Candidate W → Type 0
  IsRow cands e = (e.0 ≡ e.1.no_token) × (find e.0 cands ≡ some e.1)

  abbrev pub IsTable : Cands W → Type 0
  IsTable cands = All (IsRow cands) cands

  module _ (w : Bool) (cfg : Config W) (keep : Kept W) where
    pub record IsPlaced (tok : Bytes) (c : Candidate W) (r : Round W) (q : Quote W) : Type 0 where
      pub leg : same_bool c.is_touch w ≡ true
      pub free : is_some (find tok keep) ≡ false
      pub room : reaches r.n_orders cfg.max_orders ≡ false
      pub touch_room : w && reaches r.touch_placed cfg.touch_max_orders ≡ false
      pub quoted : quote_for cfg tok c r.ledger ≡ some q

    consider_parts :
        (tok : Bytes) (c : Candidate W) (r next : Round W)
        → consider w cfg keep tok c r ≡ some next
        → (next ≡ r) ⊎ ((q : Quote W) × IsPlaced tok c r q × (next ≡ place_quote c q r))
    unfolding consider
    consider_parts tok c r next h =
        elim (Bool-cases (not (same_bool c.is_touch w) || is_some (find tok keep))) [
          | inl e ↦ inl (ground arith)
          | inr e ↦
              elim (Bool-cases (
                reaches r.n_orders cfg.max_orders
                || w && reaches r.touch_placed cfg.touch_max_orders)) [
                  | inl f ↦ absurd (ground arith)
                  | inr f ↦ elim (Option-cases (quote_for cfg tok c r.ledger)) [
                    | inl z ↦ inl (ground arith)
                    | inr (q, quoted) ↦ inr (
                      q,
                      record {
                        leg = ground arith;
                        free = ground arith;
                        room = ground arith;
                        touch_room = ground arith;
                        quoted = quoted;
                      },
                      ground arith,
                    )
                  ]
                ]
        ]

    -- What every placement keeps, the loop keeps.
    module _ {κ} (R : Bytes × Candidate W → Type κ) (P : Round W → Type κ)
        (keeps : (tok : Bytes) (c : Candidate W) (r : Round W) (q : Quote W)
          → R (tok, c)
          → IsPlaced tok c r q
          → P r
          → P (place_quote c q r)) where
      pub place_loop_inv :
          (cands : Cands W) (r : Round W) → All R cands → P r → P (place_loop w cfg keep cands r)
      unfolding place_loop
      place_loop_inv [] r rows h = h
      place_loop_inv ((tok, c) ∷ cands) r (row, rows) h =
          elim (Option-cases (consider w cfg keep tok c r)) [
            | inl z ↦ rw (z, place_loop) h
            | inr (next, e) ↦
                let after : P next = elim (consider_parts tok c r next e) [
                  | inl same ↦ rw same h
                  | inr (q, placed, made) ↦ rw made (keeps tok c r q row placed h)
                ] in
                rw (e, place_loop) (place_loop_inv cands next rows after)
          ]

  -- Whether an action places an order for a row that is counted.
  unfoldable pub counted : (Candidate W → Bool) → Cands W → Action W → Bool
  counted sel cands a = elim a.kind [
    | cancel ↦ false
    | place ↦ elim (find a.no_token cands) [ none ↦ false | some c ↦ sel c ]
  ]

  -- The money that stands after the actions, and how many of them are counted.
  unfoldable pub spent : (Candidate W → Bool) → Cands W → W → List (Action W) → W
  spent sel cands start [] = start
  spent sel cands start (a ∷ out) =
      spent sel cands (if counted sel cands a then start ⊕ a.no_price ⊗ a.size else start) out

  unfoldable pub tally : (Candidate W → Bool) → Cands W → List (Action W) → ℕ
  tally sel cands [] = 0
  tally sel cands (a ∷ out) =
      let rest = tally sel cands out in if counted sel cands a then suc rest else rest

  module _ (sel : Candidate W → Bool) (cands : Cands W) where
    pub spent-append :
        (xs : List (Action W)) (start : W) (a : Action W)
        → spent sel cands start (xs ++ (a ∷ [])) ≡ (
            if counted sel cands a
            then spent sel cands start xs ⊕ a.no_price ⊗ a.size
            else spent sel cands start xs)
    unfolding spent
    spent-append [] start a = refl
    spent-append (x ∷ xs) start a = spent-append xs _ a

    pub tally-append :
        (xs : List (Action W)) (a : Action W)
        → tally sel cands (xs ++ (a ∷ []))
          ≡ (if counted sel cands a then suc (tally sel cands xs) else tally sel cands xs)
    unfolding tally
    tally-append [] a = refl
    tally-append (x ∷ xs) a = ground (arith, tally-append xs a)

    pub spent-sweep_open :
        (cfg : Config W) (start : W) (os : List (OpenOrder W)) (keep : Kept W)
        → spent sel cands start (sweep_open cands cfg os keep).0 ≡ start
    unfolding spent sweep_open counted
    spent-sweep_open cfg start [] keep = refl
    spent-sweep_open cfg start (o ∷ os) keep = elim (Option-cases (cancel_reason cands cfg o)) [
      | inl z ↦ rw (z, sweep_open) (spent-sweep_open cfg start os (put o.no_token o keep))
      | inr (why, e) ↦ rw (e, sweep_open) (spent-sweep_open cfg start os keep)
    ]

    pub tally-sweep_open :
        (cfg : Config W) (os : List (OpenOrder W)) (keep : Kept W)
        → tally sel cands (sweep_open cands cfg os keep).0 ≡ 0
    unfolding tally sweep_open counted
    tally-sweep_open cfg [] keep = refl
    tally-sweep_open cfg (o ∷ os) keep = elim (Option-cases (cancel_reason cands cfg o)) [
      | inl z ↦ rw (z, sweep_open) (tally-sweep_open cfg os (put o.no_token o keep))
      | inr (why, e) ↦ rw (e, sweep_open) (tally-sweep_open cfg os keep)
    ]

    -- A placed order is counted as its row is.
    pub counted_place :
        (tok : Bytes) (c : Candidate W) (q : Quote W)
        → IsRow cands (tok, c)
        → q.no_token ≡ c.no_token
        → counted sel cands (place_action q) ≡ sel c
    unfolding counted
    counted_place tok c q (key, found) same =
        let here : find q.no_token cands ≡ some c =
          ap (λ t. find t cands) (same ∙ sym key) ∙ found in
        ap (λ (o : Option (Candidate W)). elim o [ none ↦ false | some b ↦ sel b ]) here

  pub quote_token :
      (cfg : Config W) (tok : Bytes) (c : Candidate W) (l : Ledger W) (q : Quote W)
      → quote_for cfg tok c l ≡ some q
      → q.no_token ≡ c.no_token
  unfolding quote_for
  quote_token cfg tok c l q h = (decide-IsQuote c cfg _ _ _ q h).2.no_token
