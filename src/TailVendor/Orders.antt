-- ===== src/TailVendor/Orders.antt =====
-- How many orders a round leaves, for which tokens, and what becomes of the open ones.
use polymarket_live_maker.Prelude.{
  Bool, Bytes, Double, List, [], arith, exceeds, false, inl, inr, length, reaches, refl, suc, true,
  ℕ, ℤ, ◌+◌, ◌∙◌, ◌≡◌, ◌⊎◌,
}
use polymarket_live_maker.TailVendor.{Candidate, Config, Quote}
use polymarket_live_maker.TailVendor.Plan.{
  OpenOrder, Ledger, Round, Cands, Kept, sweep_open, place_action, place_quote, place_pass, opening,
  plan,
}
use polymarket_live_maker.TailVendor.Ledger.{
  IsRow, IsTable, IsPlaced, place_loop_inv, counted_place, quote_token, tally, tally-append,
  tally-sweep_open,
}

room_after : (n : ℕ) (z : ℤ) → reaches n z ≡ false → exceeds (suc n) z ≡ false
room_after n (ℤ.pos m) h = ground arith
room_after n (ℤ.negsuc m) h = cc

module _ {W : Type 0} ⦃d : Double W⦄ where
  abbrev pub any_row : Candidate W → Bool
  any_row c = true

  abbrev pub touch_row : Candidate W → Bool
  touch_row c = c.is_touch

  module _ (cfg : Config W) (cands : Cands W) (base : ℕ) where
    -- The count of the loop is what stays and what was placed, and it stops at the bound.
    abbrev Counted : Round W → Type 0
    Counted r =
        (r.n_orders ≡ base + tally any_row cands r.out)
        × ((tally any_row cands r.out ≡ 0) ⊎ (exceeds r.n_orders cfg.max_orders ≡ false))

    Counted-place :
        (w : Bool) (keep : Kept W) (tok : Bytes) (c : Candidate W) (r : Round W) (q : Quote W)
        → IsRow cands (tok, c)
        → IsPlaced w cfg keep tok c r q
        → Counted r
        → Counted (place_quote c q r)
    unfolding place_quote
    Counted-place w keep tok c r q row placed (same, bound) =
        let mark =
          counted_place any_row cands tok c q row
            (quote_token cfg tok c r.ledger q placed.quoted) in
        let out_count = tally-append any_row cands r.out (place_action q) in
        (
          ground (arith, mark, out_count, same),
          inr (room_after r.n_orders cfg.max_orders placed.room),
        )

    Counted-place_pass :
        (w : Bool) (keep : Kept W) (r : Round W)
        → IsTable cands
        → Counted r
        → Counted (place_pass w cfg keep cands r)
    unfolding place_pass
    Counted-place_pass w keep r table h =
        place_loop_inv w cfg keep (IsRow cands) Counted (Counted-place w keep) cands _ table h

    -- The pass for the core places no order of the touch leg.
    abbrev Untouched : Round W → Type 0
    Untouched r = tally touch_row cands r.out ≡ 0

    Untouched-place_pass :
        (keep : Kept W) (r : Round W)
        → IsTable cands
        → Untouched r
        → Untouched (place_pass false cfg keep cands r)
    unfolding place_pass place_quote
    Untouched-place_pass keep r table h =
        place_loop_inv false cfg keep (IsRow cands) Untouched
          (λ tok c s q row placed before.
            let mark =
              counted_place touch_row cands tok c q row
                (quote_token cfg tok c s.ledger q placed.quoted) in
            let out_count = tally-append touch_row cands s.out (place_action q) in
            let leg = placed.leg in ground (arith, mark, out_count, before, leg))
          cands _ table h

    -- The pass for the touch leg counts what it places, up to its own bound.
    abbrev Touched : Round W → Type 0
    Touched r =
        (tally touch_row cands r.out ≡ r.touch_placed)
        × ((r.touch_placed ≡ 0) ⊎ (exceeds r.touch_placed cfg.touch_max_orders ≡ false))

    Touched-place :
        (keep : Kept W) (tok : Bytes) (c : Candidate W) (r : Round W) (q : Quote W)
        → IsRow cands (tok, c)
        → IsPlaced true cfg keep tok c r q
        → Touched r
        → Touched (place_quote c q r)
    unfolding place_quote
    Touched-place keep tok c r q row placed (same, bound) =
        let mark =
          counted_place touch_row cands tok c q row
            (quote_token cfg tok c r.ledger q placed.quoted) in
        let out_count = tally-append touch_row cands r.out (place_action q) in
        let leg = placed.leg in
        let room = room_after r.touch_placed cfg.touch_max_orders placed.touch_room in
        (ground (arith, mark, out_count, same, leg), inr (ground (arith, leg, room)))

    Touched-place_pass :
        (keep : Kept W) (r : Round W)
        → IsTable cands
        → Untouched r
        → Touched (place_pass true cfg keep cands r)
    unfolding place_pass
    Touched-place_pass keep r table h =
        place_loop_inv true cfg keep (IsRow cands) Touched (Touched-place keep) cands _ table
          (h, inl refl)

  -- Over a table keyed by its tokens, a round either places no order or ends with a number of kept
  -- and placed orders that is not above the bound on orders, and likewise for the placed touch
  -- orders and their bound.
  pub plan-order_count :
      (cfg : Config W) (cands : Cands W) (open_orders : List (OpenOrder W)) (held : Ledger W)
      → IsTable cands
      → ((tally any_row cands (plan cands open_orders held cfg) ≡ 0)
          ⊎ (exceeds
                (length (sweep_open cands cfg open_orders []).1
                  + tally any_row cands (plan cands open_orders held cfg))
                cfg.max_orders
              ≡ false))
        × ((tally touch_row cands (plan cands open_orders held cfg) ≡ 0)
            ⊎ (exceeds
                  (tally touch_row cands (plan cands open_orders held cfg))
                  cfg.touch_max_orders
                ≡ false))
  unfolding plan
  plan-order_count cfg cands open_orders held table =
      let swept = sweep_open cands cfg open_orders [] in
      let keep = swept.1 in
      let r0 : Round W = record {
        ledger = opening cands keep held;
        n_orders = length keep;
        touch_placed = 0;
        out = swept.0;
      } in
      let r1 = place_pass false cfg keep cands r0 in
      let begin : Counted cfg cands (length keep) r0 =
        let none_yet = tally-sweep_open any_row cands cfg open_orders [] in
        (omega (arith, none_yet), inl none_yet) in
      let (same, bound) =
        Counted-place_pass cfg cands (length keep) true keep r1 table
          (Counted-place_pass cfg cands (length keep) false keep r0 table begin) in
      let (touched, few) = Touched-place_pass cfg cands (length keep) keep r1 table (
        Untouched-place_pass cfg cands (length keep) keep r0 table
          (tally-sweep_open touch_row cands cfg open_orders [])) in
      (
        elim bound [ inl e ↦ inl e | inr e ↦ inr (rw (← same) e) ],
        elim few [ inl e ↦ inl (touched ∙ e) | inr e ↦ inr (rw touched e) ],
      )
