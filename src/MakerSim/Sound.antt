-- ===== src/MakerSim/Sound.antt =====
-- What simulate_pool of cpp/src/pmm/maker_sim.cpp gives back.
use polymarket_live_maker.Prelude.{
  Bool, Double, List, [], arith, either, either_when, false, ge, gt, if◌then◌else◌, inl, inr, le,
  length, lit, lt, nil, not, not-false, refl, true, ◌&&◌, ◌+◌, ◌∷◌, ◌≡◌, ◌≤◌, ◌⊎◌, ◌⊕◌, ◌⊖◌, ◌⊗◌,
}
use polymarket_live_maker.OrderBook.Signals.{adverse_bleed}
use polymarket_live_maker.MakerSim.{
  SimParams, SimResult, SimSums, SimError, bad_cancel_efficiency, bad_downtime, bad_unwind_cost,
  steps_of, sim_step, sim_loop, sim_sums, sim_result, simulate_pool,
}

module _ {W : Type 0} ⦃d : Double W⦄ where
  sim_step-pickoffs :
      (p : SimParams W) (prev now : W) (sums : SimSums W)
      → (sim_step p prev now sums).pickoffs ≤ sums.pickoffs + 1
  unfolding sim_step
  sim_step-pickoffs p prev now sums =
      let raw : W = adverse_bleed p.min_size (p.tick ⊗ lit 100 0) prev now nil in
      let fill_frac : W = lit 1 0 ⊖ p.cancel_efficiency in
      let unwind_per_fill : W = p.min_size ⊗ p.unwind_cost_ticks ⊗ p.tick in
      either (λ (s : SimSums W). s.pickoffs ≤ sums.pickoffs + 1) (gt raw nil)
        (record {
          bleed_total = sums.bleed_total ⊕ raw ⊗ fill_frac;
          unwind_total = sums.unwind_total ⊕ unwind_per_fill ⊗ fill_frac;
          pickoffs = sums.pickoffs + 1;
        })
        sums (omega arith) (omega arith)

  sim_loop-pickoffs :
      (p : SimParams W) (prev : W) (rest : List W) (sums : SimSums W)
      → (sim_loop p prev rest sums).pickoffs ≤ sums.pickoffs + length rest
  unfolding sim_loop
  sim_loop-pickoffs p prev [] sums = omega arith
  sim_loop-pickoffs p prev (now ∷ rest) sums = omega (
    arith,
    sim_loop-pickoffs p now rest (sim_step p prev now sums),
    sim_step-pickoffs p prev now sums,
  )

  sim_sums-pickoffs : (p : SimParams W) (path : List W) → (sim_sums p path).pickoffs ≤ steps_of path
  unfolding sim_sums
  sim_sums-pickoffs p [] = omega arith
  sim_sums-pickoffs p (first ∷ rest) = omega (arith, sim_loop-pickoffs p first rest _)

  is_fraction : W → Bool
  is_fraction x = ge x nil && le x (lit 1 0)

  -- A refusal names the first parameter that is out of range; a result has all of them in range.
  unfoldable pub IsSound : List W → SimParams W → SimError ⊎ SimResult W → Type 0
  unfolding is_fraction
  IsSound path p (inl bad_cancel_efficiency) = is_fraction p.cancel_efficiency ≡ false
  IsSound path p (inl bad_downtime) =
      (is_fraction p.cancel_efficiency ≡ true) × (lt p.requote_downtime_s nil ≡ true)
  IsSound path p (inl bad_unwind_cost) =
      (is_fraction p.cancel_efficiency ≡ true)
      × (lt p.requote_downtime_s nil ≡ false)
      × (lt p.unwind_cost_ticks nil ≡ true)
  IsSound path p (inr r) =
      (is_fraction p.cancel_efficiency ≡ true)
      × (lt p.requote_downtime_s nil ≡ false)
      × (lt p.unwind_cost_ticks nil ≡ false)
      × (r.steps ≡ steps_of path)
      × (r.pickoffs ≤ r.steps)

  -- A replay refuses its parameters exactly if the share of the cancels is not between 0 and 1, or the
  -- downtime or the cost is negative, and names the first of these; its result has one step for each
  -- price but the first, and no more fills than steps.
  simulate_pool-IsSound : (path : List W) (p : SimParams W) → IsSound path p (simulate_pool path p)
  unfolding simulate_pool sim_result IsSound is_fraction
  simulate_pool-IsSound path p =
      let costed : SimError ⊎ SimResult W =
        if lt p.unwind_cost_ticks nil
        then inl bad_unwind_cost
        else inr (sim_result p (steps_of path) (sim_sums p path)) in
      let timed : SimError ⊎ SimResult W =
        if lt p.requote_downtime_s nil then inl bad_downtime else costed in
      either_when (IsSound path p)
        (not (ge p.cancel_efficiency nil && le p.cancel_efficiency (lit 1 0)))
        (inl bad_cancel_efficiency) timed (λ e. ground arith)
        (λ e.
          let fraction : (ge p.cancel_efficiency nil && le p.cancel_efficiency (lit 1 0)) ≡ true =
            not-false _ e in
          either_when (IsSound path p) (lt p.requote_downtime_s nil) (inl bad_downtime) costed
            (λ f. (fraction, f))
            (λ f.
              either_when (IsSound path p) (lt p.unwind_cost_ticks nil) (inl bad_unwind_cost)
                (inr (sim_result p (steps_of path) (sim_sums p path))) (λ g. (fraction, f, g))
                (λ g. (fraction, f, g, refl, sim_sums-pickoffs p path))))
