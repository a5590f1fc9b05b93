-- ===== src/TailVendor/Standing.antt =====
-- The money of the open orders that a round of `plan` in cpp/src/pmm/tail_vendor.cpp leaves standing, told
-- from its actions alone.
use polymarket_live_maker.Prelude.{
  All, Bool, Bool-cases, Bytes, Double, List, Option-cases, [], ap, arith, false, find, find-put,
  find_or, if◌then◌else◌, inl, inr, nil, put, refl, same_str, same_str_refl, same_str_sound,
  same_str_sym, subst, sym, true, ◌&&◌, ◌++◌, ◌||◌, ◌∙◌, ◌∷◌, ◌≡◌, ◌⊕◌, ◌⊗◌,
}
use polymarket_live_maker.TailVendor.{Config, Quote}
use polymarket_live_maker.TailVendor.Plan.{
  OpenOrder, Kind, cancel, place, Action, Ledger, Round, Cands, Kept, is_some, same_bool,
  cancel_reason, cancel_action, sweep_open, charge_total, charge_coin, charge_market, is_touch_row,
  charge_kept, place_action, place_quote, coins, total_of, place_pass, opening, plan,
}
use polymarket_live_maker.TailVendor.Ledger.{IsTable, IsRow, place_loop_inv}
use polymarket_live_maker.TailVendor.Sweep.{
  IsFresh, IsSpread, actions_for, sweep_open_kept, sweep_open_cancelled, sweep_open-apart,
}

abbrev is_cancel : Kind → Bool
is_cancel cancel = true
is_cancel place = false

module _ {W : Type 0} ⦃d : Double W⦄ where
  unfoldable has_cancel : List (Action W) → Bool
  has_cancel [] = false
  has_cancel (a ∷ out) = is_cancel a.kind || has_cancel out

  -- Whether some action cancels the orders of a token.
  unfoldable pub cancelled_in : Bytes → List (Action W) → Bool
  unfolding actions_for has_cancel
  cancelled_in tok out = has_cancel (actions_for tok out)

  -- The open orders that no action cancels, in the order of their tokens, after those before.
  unfoldable pub standing : List (Action W) → List (OpenOrder W) → Kept W → Kept W
  unfolding cancelled_in
  standing out [] keep = keep
  standing out (o ∷ os) keep =
      let stays = standing out os (put o.no_token o keep) in
      let goes = standing out os keep in if cancelled_in o.no_token out then goes else stays

  -- Their money, where it is counted, added to a sum.
  unfoldable pub stands : (Bytes × OpenOrder W → Bool) → W → Kept W → W
  stands sel sum [] = sum
  stands sel sum (e ∷ keep) = stands sel (if sel e then sum ⊕ e.1.no_price ⊗ e.1.size else sum) keep

  -- The orders of one leg, by the row of their token; one without a row is of the core leg.
  abbrev pub of_leg : Cands W → Bool → Bytes × OpenOrder W → Bool
  of_leg cands touch e = same_bool (is_touch_row (find e.0 cands)) touch

  -- And those that carry the name of a coin.
  abbrev pub of_coin : Cands W → Bool → Bytes → Bytes × OpenOrder W → Bool
  of_coin cands touch k e = of_leg cands touch e && same_str k e.1.coin

  cancelled_in-append :
      (tok : Bytes) (out : List (Action W)) (q : Quote W)
      → cancelled_in tok (out ++ (place_action q ∷ [])) ≡ cancelled_in tok out
  unfolding cancelled_in actions_for has_cancel
  cancelled_in-append tok [] q = elim (Bool-cases (same_str tok q.no_token)) [
    | inl e ↦ simp e refl
    | inr e ↦ simp e refl
  ]
  cancelled_in-append tok (a ∷ out) q = elim (Bool-cases (same_str tok a.no_token)) [
    | inl e ↦ simp (e, cancelled_in-append tok out q) refl
    | inr e ↦ simp (e, cancelled_in-append tok out q) refl
  ]

  module _ (cands : Cands W) (cfg : Config W) where
    -- The actions of the sweep tell which orders go.
    abbrev Tells : List (Action W) → OpenOrder W → Type 0
    Tells out o = cancelled_in o.no_token out ≡ is_some (cancel_reason cands cfg o)

    Tells-cancelled :
        (o : OpenOrder W) (why : Bytes) (out : List (Action W)) (os : List (OpenOrder W))
        → All (IsFresh o) os
        → All (Tells out) os
        → All (Tells (cancel_action o why ∷ out)) os
    unfolding cancelled_in actions_for
    Tells-cancelled o why out [] f h = tt
    Tells-cancelled o why out (p ∷ os) (f, fs) (h, hs) =
        let away : same_str p.no_token o.no_token ≡ false =
          same_str_sym p.no_token o.no_token ∙ f in
        (simp away h, Tells-cancelled o why out os fs hs)

    sweep_open-Tells :
        (os : List (OpenOrder W)) (keep : Kept W)
        → IsSpread os
        → All (Tells (sweep_open cands cfg os keep).0) os
    unfolding cancelled_in actions_for has_cancel
    sweep_open-Tells [] keep h = tt
    sweep_open-Tells (o ∷ os) keep (f, fs) = elim (Option-cases (cancel_reason cands cfg o)) [
      | inl z ↦
          let keep2 = put o.no_token o keep in
          let (none_said, same) = sweep_open-apart cands cfg o os keep2 f in
          subst (λ (p : List (Action W) × Kept W). All (Tells p.0) (o ∷ os))
            (sym (sweep_open_kept cands cfg o os keep z))
            (rw (none_said, z) refl, sweep_open-Tells os keep2 fs)
      | inr (why, z) ↦
          subst (λ (p : List (Action W) × Kept W). All (Tells p.0) (o ∷ os))
            (sym (sweep_open_cancelled cands cfg o os keep why z))
            (
              simp (same_str_refl o.no_token, z) refl,
              Tells-cancelled o why _ os f (sweep_open-Tells os keep fs),
            )
    ]

    standing-sweep_open :
        (out : List (Action W)) (os : List (OpenOrder W)) (keep : Kept W)
        → All (Tells out) os
        → standing out os keep ≡ (sweep_open cands cfg os keep).1
    unfolding standing
    standing-sweep_open out [] keep h = unfold sweep_open in refl
    standing-sweep_open out (o ∷ os) keep (h, hs) =
        elim (Option-cases (cancel_reason cands cfg o)) [
          | inl z ↦
              let stays : cancelled_in o.no_token out ≡ false = h ∙ ap is_some z in
              simp (stays, sweep_open_kept cands cfg o os keep z)
                (standing-sweep_open out os (put o.no_token o keep) hs)
          | inr (why, z) ↦
              let goes : cancelled_in o.no_token out ≡ true = h ∙ ap is_some z in
              simp (goes, sweep_open_cancelled cands cfg o os keep why z)
                (standing-sweep_open out os keep hs)
        ]

    -- The placements cancel nothing.
    plan-cancelled :
        (open_orders : List (OpenOrder W)) (held : Ledger W) (tok : Bytes)
        → IsTable cands
        → cancelled_in tok (plan cands open_orders held cfg)
          ≡ cancelled_in tok (sweep_open cands cfg open_orders []).0
    unfolding plan place_pass place_quote
    plan-cancelled open_orders held tok table =
        let swept = sweep_open cands cfg open_orders [] in
        let P : Round W → Type 0 = λ r. cancelled_in tok r.out ≡ cancelled_in tok swept.0 in
        place_loop_inv true cfg swept.1 (IsRow cands) P
          (λ tok2 c r q row placed h. cancelled_in-append tok r.out q ∙ h) cands _ table
          (place_loop_inv false cfg swept.1 (IsRow cands) P
            (λ tok2 c r q row placed h. cancelled_in-append tok r.out q ∙ h) cands _ table refl)

    plan-Tells :
        (open_orders : List (OpenOrder W)) (held : Ledger W) (os : List (OpenOrder W))
        → IsTable cands
        → All (Tells (sweep_open cands cfg open_orders []).0) os
        → All (Tells (plan cands open_orders held cfg)) os
    plan-Tells open_orders held [] table h = tt
    plan-Tells open_orders held (o ∷ os) table (h, hs) = (
      plan-cancelled open_orders held o.no_token table ∙ h,
      plan-Tells open_orders held os table hs,
    )

    -- The actions of a round leave standing what the sweep keeps.
    pub standing-plan :
        (open_orders : List (OpenOrder W)) (held : Ledger W)
        → IsTable cands
        → IsSpread open_orders
        → standing (plan cands open_orders held cfg) open_orders []
          ≡ (sweep_open cands cfg open_orders []).1
    standing-plan open_orders held table spread =
        standing-sweep_open _ open_orders []
          (plan-Tells open_orders held open_orders table (sweep_open-Tells open_orders [] spread))

  module _ (cands : Cands W) (touch : Bool) where
    total-charge_kept :
        (l : Ledger W) (e : Bytes × OpenOrder W)
        → total_of touch (charge_kept cands l e) ≡ (
            if of_leg cands touch e
            then total_of touch l ⊕ e.1.no_price ⊗ e.1.size
            else total_of touch l)
    unfolding charge_kept charge_total charge_coin charge_market
    total-charge_kept l e = ground arith

    pub total-opening :
        (keep : Kept W) (l : Ledger W)
        → total_of touch (opening cands keep l)
          ≡ stands (of_leg cands touch) (total_of touch l) keep
    unfolding opening stands
    total-opening [] l = refl
    total-opening (e ∷ keep) l =
        total-opening keep (charge_kept cands l e)
        ∙ ap (λ x. stands (of_leg cands touch) x keep) (total-charge_kept l e)

    coin-charge_kept :
        (k : Bytes) (l : Ledger W) (e : Bytes × OpenOrder W)
        → same_str k [] ≡ false
        → find_or nil k (coins touch (charge_kept cands l e)) ≡ (
            if of_coin cands touch k e
            then find_or nil k (coins touch l) ⊕ e.1.no_price ⊗ e.1.size
            else find_or nil k (coins touch l))
    unfolding charge_kept charge_total charge_coin charge_market
    coin-charge_kept k l e named = elim (Bool-cases (same_str e.1.coin [])) [
      | inl z ↦
          let empty : e.1.coin ≡ [] = same_str_sound e.1.coin [] z in
          let other : same_str k e.1.coin ≡ false = rw empty named in ground (arith, other)
      | inr z ↦ ground (
        arith,
        find-put e.1.coin k (find_or nil e.1.coin (coins touch l) ⊕ e.1.no_price ⊗ e.1.size)
            (coins touch l),
        same_str_sound k e.1.coin,
      )
    ]

    pub coin-opening :
        (k : Bytes) (keep : Kept W) (l : Ledger W)
        → same_str k [] ≡ false
        → find_or nil k (coins touch (opening cands keep l))
          ≡ stands (of_coin cands touch k) (find_or nil k (coins touch l)) keep
    unfolding opening stands
    coin-opening k [] l named = refl
    coin-opening k (e ∷ keep) l named =
        coin-opening k keep (charge_kept cands l e) named
        ∙ ap (λ x. stands (of_coin cands touch k) x keep) (coin-charge_kept k l e named)
