-- ===== src/TailVendor/Sweep.antt =====
-- The first loop of `plan` in cpp/src/pmm/tail_vendor.cpp: what becomes of every open order.
use polymarket_live_maker.Prelude.{
  All, Bool, Bool-cases, Bytes, Double, List, Option, Option-cases, [], codes, fabs, false, find,
  find-put, gt, if◌then◌else◌, inl, inr, lit, lt, none, put, refl, same_str, same_str_refl,
  same_str_sym, some, subst, sym, true, ◌∙◌, ◌∷◌, ◌≡◌, ◌⊎◌, ◌⊖◌, ◌⊘◌,
}
use polymarket_live_maker.TailVendor.{Candidate, Config, eps, undercut, should_pull}
use polymarket_live_maker.TailVendor.Plan.{
  OpenOrder, Action, Cands, Kept, why_of, cancel_reason, cancel_action, sweep_open,
}

module _ {W : Type 0} ⦃d : Double W⦄ where
  abbrev pub IsFresh : OpenOrder W → OpenOrder W → Type 0
  IsFresh o p = same_str o.no_token p.no_token ≡ false

  -- The open orders have different tokens.
  abbrev pub IsSpread : List (OpenOrder W) → Type 0
  IsSpread [] = Unit
  IsSpread (o ∷ os) = All (IsFresh o) os × IsSpread os

  -- The actions for a token.
  unfoldable pub actions_for : Bytes → List (Action W) → List (Action W)
  actions_for tok [] = []
  actions_for tok (a ∷ out) =
      let rest = actions_for tok out in if same_str tok a.no_token then a ∷ rest else rest

  module _ (cands : Cands W) (cfg : Config W) where
    -- The row's ask is below the order's, by more than a tick.
    is_undercut : OpenOrder W → Candidate W → Bool
    is_undercut o c = lt c.yes_ask (lit 1 0 ⊖ o.no_price ⊖ cfg.tick ⊖ eps)

    -- The order would move by more than half a tick.
    is_off : OpenOrder W → Candidate W → Bool
    is_off o c = gt (fabs (lit 1 0 ⊖ undercut c cfg ⊖ o.no_price)) (cfg.tick ⊘ lit 2 0)

    -- Why an order goes.
    unfoldable pub IsReason : OpenOrder W → Bytes → Type 0
    unfolding is_undercut is_off
    IsReason o why =
        ((find o.no_token cands ≡ none) × (why ≡ codes "left_window"))
        ⊎ ((c : Candidate W) × (find o.no_token cands ≡ some c)
            × (((should_pull c cfg ≡ true) × (why ≡ codes "pull_signal"))
                ⊎ ((should_pull c cfg ≡ false)
                    × (is_undercut o c ≡ true)
                    × (((is_off o c ≡ true) × (why ≡ codes "outbid"))
                        ⊎ ((is_off o c ≡ false) × (why ≡ codes "wall_over_floor"))))))

    -- Why it stays: its row is there, without a signal to pull, and does not undercut it.
    unfoldable pub IsWanted : OpenOrder W → Type 0
    unfolding is_undercut
    IsWanted o =
        (c : Candidate W) × (find o.no_token cands ≡ some c)
        × (should_pull c cfg ≡ false)
        × (is_undercut o c ≡ false)

    -- Two ways for a computed reason.
    unfoldable IsDecided : OpenOrder W → Option Bytes → Type 0
    unfolding IsReason IsWanted
    IsDecided o none = IsWanted o
    IsDecided o (some why) = IsReason o why

    decided :
        (o : OpenOrder W) (r : Option Bytes)
        → cancel_reason cands cfg o ≡ r
        → IsDecided o r
        → IsDecided o (cancel_reason cands cfg o)
    decided o r e h = subst (λ x. IsDecided o x) (sym e) h

    cancel_reason-IsDecided : (o : OpenOrder W) → IsDecided o (cancel_reason cands cfg o)
    unfolding cancel_reason why_of IsDecided IsReason IsWanted is_undercut is_off
    cancel_reason-IsDecided o = elim (Option-cases (find o.no_token cands)) [
      | inl z ↦ decided o (some (codes "left_window")) (rw (z, cancel_reason) refl) (inl (z, refl))
      | inr (c, z) ↦ elim (Bool-cases (should_pull c cfg)) [
        | inl e ↦
            decided o (some (codes "pull_signal")) (simp (z, e, cancel_reason, why_of) refl)
              (inr (c, z, inl (e, refl)))
        | inr e ↦ elim (Bool-cases (is_undercut o c)) [
          | inl f ↦ elim (Bool-cases (is_off o c)) [
            | inl g ↦
                decided o (some (codes "outbid")) (simp (z, e, f, g, cancel_reason, why_of) refl)
                  (inr (c, z, inr (e, f, inl (g, refl))))
            | inr g ↦
                decided o (some (codes "wall_over_floor"))
                  (simp (z, e, f, g, cancel_reason, why_of) refl)
                  (inr (c, z, inr (e, f, inr (g, refl))))
          ]
          | inr f ↦ decided o none (simp (z, e, f, cancel_reason, why_of) refl) (c, z, e, f)
        ]
      ]
    ]

    pub sweep_open_kept :
        (o : OpenOrder W) (os : List (OpenOrder W)) (keep : Kept W)
        → cancel_reason cands cfg o ≡ none
        → sweep_open cands cfg (o ∷ os) keep ≡ sweep_open cands cfg os (put o.no_token o keep)
    unfolding sweep_open
    sweep_open_kept o os keep z = rw (z, sweep_open) refl

    pub sweep_open_cancelled :
        (o : OpenOrder W) (os : List (OpenOrder W)) (keep : Kept W) (why : Bytes)
        → cancel_reason cands cfg o ≡ some why
        → sweep_open cands cfg (o ∷ os) keep ≡ (
          cancel_action o why ∷ (sweep_open cands cfg os keep).0,
          (sweep_open cands cfg os keep).1,
        )
    unfolding sweep_open
    sweep_open_cancelled o os keep why z = rw (z, sweep_open) refl

    -- An order of another token has no part in the rest of the sweep.
    pub sweep_open-apart :
        (o : OpenOrder W) (os : List (OpenOrder W)) (keep : Kept W)
        → All (IsFresh o) os
        → (actions_for o.no_token (sweep_open cands cfg os keep).0 ≡ [])
          × (find o.no_token (sweep_open cands cfg os keep).1 ≡ find o.no_token keep)
    unfolding sweep_open actions_for
    sweep_open-apart o [] keep h = (refl, refl)
    sweep_open-apart o (p ∷ os) keep (h, hs) = elim (Option-cases (cancel_reason cands cfg p)) [
      | inl z ↦
          let step = find-put p.no_token o.no_token p keep in
          let (none_said, same) = sweep_open-apart o os (put p.no_token p keep) hs in
          rw (z, sweep_open) (none_said, same ∙ rw h at step)
      | inr (why, z) ↦
          let (none_said, same) = sweep_open-apart o os keep hs in
          rw (z, sweep_open) (simp h none_said, same)
    ]

    -- Exactly one cancel, with its reason, and not kept; or kept, without an action.
    abbrev pub IsHandled : Kept W → List (Action W) → Kept W → OpenOrder W → Type 0
    IsHandled before out keep o =
        ((why : Bytes) × IsReason o why
          × (actions_for o.no_token out ≡ cancel_action o why ∷ [])
          × (find o.no_token keep ≡ find o.no_token before))
        ⊎ (IsWanted o × (actions_for o.no_token out ≡ []) × (find o.no_token keep ≡ some o))

    IsHandled-cancelled :
        (o : OpenOrder W) (why : Bytes) (before : Kept W) (out : List (Action W)) (keep : Kept W)
        (os : List (OpenOrder W))
        → All (IsFresh o) os
        → All (IsHandled before out keep) os
        → All (IsHandled before (cancel_action o why ∷ out) keep) os
    unfolding actions_for
    IsHandled-cancelled o why before out keep [] f h = tt
    IsHandled-cancelled o why before out keep (p ∷ os) (f, fs) (h, hs) =
        let away : same_str p.no_token o.no_token ≡ false =
          same_str_sym p.no_token o.no_token ∙ f in
        let same : actions_for p.no_token (cancel_action o why ∷ out) ≡ actions_for p.no_token out =
          simp away refl in
        (
          elim h [
            | inl (y, r, a, k) ↦ inl (y, r, same ∙ a, k)
            | inr (w, a, k) ↦ inr (w, same ∙ a, k)
          ],
          IsHandled-cancelled o why before out keep os fs hs,
        )

    IsHandled-kept :
        (o : OpenOrder W) (before : Kept W) (out : List (Action W)) (keep : Kept W)
        (os : List (OpenOrder W))
        → All (IsFresh o) os
        → All (IsHandled (put o.no_token o before) out keep) os
        → All (IsHandled before out keep) os
    IsHandled-kept o before out keep [] f h = tt
    IsHandled-kept o before out keep (p ∷ os) (f, fs) (h, hs) =
        let away : same_str p.no_token o.no_token ≡ false =
          same_str_sym p.no_token o.no_token ∙ f in
        let same : find p.no_token (put o.no_token o before) ≡ find p.no_token before =
          find-put o.no_token p.no_token o before ∙ simp away refl in
        (
          elim h [ inl (y, r, a, k) ↦ inl (y, r, a, k ∙ same) | inr w ↦ inr w ],
          IsHandled-kept o before out keep os fs hs,
        )

    abbrev pub Handles : Kept W → List (OpenOrder W) → Type 0
    Handles keep os =
        All (IsHandled keep (sweep_open cands cfg os keep).0 (sweep_open cands cfg os keep).1) os

    handled :
        (keep : Kept W) (os : List (OpenOrder W)) (p : List (Action W) × Kept W)
        → sweep_open cands cfg os keep ≡ p
        → All (IsHandled keep p.0 p.1) os
        → Handles keep os
    handled keep os p e h =
        subst (λ (p : List (Action W) × Kept W). All (IsHandled keep p.0 p.1) os) (sym e) h

    -- Where the open orders have different tokens, each of them either has exactly one action,
    -- which is a cancel whose reason holds for the order, and is not kept; or its row is in the
    -- table, has no signal to pull and is not undercut, and then it has no action and is kept for
    -- its token.
    pub sweep_open-Handles :
        (os : List (OpenOrder W)) (keep : Kept W) → IsSpread os → Handles keep os
    unfolding actions_for IsDecided
    sweep_open-Handles [] keep h = tt
    sweep_open-Handles (o ∷ os) keep (f, fs) =
        let why_known = cancel_reason-IsDecided o in
        elim (Option-cases (cancel_reason cands cfg o)) [
          | inl z ↦
              let after = sweep_open cands cfg os (put o.no_token o keep) in
              let (none_said, same) = sweep_open-apart o os (put o.no_token o keep) f in
              let here : find o.no_token (put o.no_token o keep) ≡ some o =
                find-put o.no_token o.no_token o keep ∙ simp (same_str_refl o.no_token) refl in
              handled keep (o ∷ os) after (sweep_open_kept o os keep z) (
                inr (subst (λ r. IsDecided o r) z why_known, none_said, same ∙ here),
                IsHandled-kept o keep after.0 after.1 os f
                    (sweep_open-Handles os (put o.no_token o keep) fs),
              )
          | inr (why, z) ↦
              let after = sweep_open cands cfg os keep in
              let (none_said, same) = sweep_open-apart o os keep f in
              handled keep (o ∷ os) (cancel_action o why ∷ after.0, after.1)
                (sweep_open_cancelled o os keep why z)
                (
                  inl (
                    why,
                    subst (λ r. IsDecided o r) z why_known,
                    simp (same_str_refl o.no_token, none_said) refl,
                    same,
                  ),
                  IsHandled-cancelled o why keep after.0 after.1 os f
                      (sweep_open-Handles os keep fs),
                )
        ]
