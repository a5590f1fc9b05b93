-- ===== src/TailVendor/Fate.antt =====
-- What every placed order of a round is.
use polymarket_live_maker.Prelude.{
  All, All-append, Bool, Bytes, Double, List, Option-cases, [], false, find, inl, inr, lit, lt, put,
  refl, some, subst, sym, true, ◌++◌, ◌∙◌, ◌∷◌, ◌≡◌, ◌⊎◌, ◌⊖◌,
}
use polymarket_live_maker.TailVendor.{Candidate, Config, Quote, round_tick}
use polymarket_live_maker.TailVendor.Guards.{IsPrice, decide-IsQuote}
use polymarket_live_maker.TailVendor.Plan.{
  OpenOrder, cancel, Action, Ledger, Round, Cands, Kept, is_some, cancel_reason, sweep_open,
  place_action, place_quote, quote_for, place_pass, plan,
}
use polymarket_live_maker.TailVendor.Ledger.{IsRow, IsTable, IsPlaced, place_loop_inv}

module _ {W : Type 0} ⦃d : Double W⦄ where
  module _ (cands : Cands W) (cfg : Config W) where
    -- A quote for a row of the table, at a price that passes every test, for a token with no order.
    abbrev pub IsSafe : Kept W → Action W → Type 0
    IsSafe keep a =
        (a.kind ≡ cancel)
        ⊎ ((c : Candidate W) × (sell_yes : W) × (find a.no_token cands ≡ some c)
            × (is_some (find a.no_token keep) ≡ false)
            × IsPrice c cfg sell_yes
            × (a.no_price ≡ round_tick (lit 1 0 ⊖ sell_yes) cfg.tick)
            × (lt a.size cfg.min_shares ≡ false))

    IsSafe-append :
        (keep : Kept W) (out : List (Action W)) (a : Action W)
        → All (IsSafe keep) out
        → IsSafe keep a
        → All (IsSafe keep) (out ++ (a ∷ []))
    IsSafe-append keep out a h k = All-append (IsSafe keep) out (a ∷ []) h (k, tt)

    IsSafe-sweep_open :
        (kept : Kept W) (os : List (OpenOrder W)) (keep : Kept W)
        → All (IsSafe kept) (sweep_open cands cfg os keep).0
    unfolding sweep_open
    IsSafe-sweep_open kept [] keep = tt
    IsSafe-sweep_open kept (o ∷ os) keep = elim (Option-cases (cancel_reason cands cfg o)) [
      | inl z ↦ rw (z, sweep_open) (IsSafe-sweep_open kept os (put o.no_token o keep))
      | inr (why, z) ↦ rw (z, sweep_open) (inl refl, IsSafe-sweep_open kept os keep)
    ]

    module _ (w : Bool) (keep : Kept W) where
      IsSafe-place :
          (tok : Bytes) (c : Candidate W) (r : Round W) (q : Quote W)
          → IsRow cands (tok, c)
          → IsPlaced w cfg keep tok c r q
          → IsSafe keep (place_action q)
      unfolding quote_for
      IsSafe-place tok c r q (key, found) placed =
          let (sell, price, quote) = decide-IsQuote c cfg _ _ _ q placed.quoted in
          let same : tok ≡ q.no_token = key ∙ sym quote.no_token in
          inr (
            c,
            sell,
            subst (λ t. find t cands ≡ some c) same found,
            subst (λ t. is_some (find t keep) ≡ false) same placed.free,
            price,
            quote.no_price,
            quote.enough,
          )

      IsSafe-place_pass :
          (r : Round W)
          → IsTable cands
          → All (IsSafe keep) r.out
          → All (IsSafe keep) (place_pass w cfg keep cands r).out
      unfolding place_pass place_quote
      IsSafe-place_pass r table h =
          place_loop_inv w cfg keep (IsRow cands) (λ s. All (IsSafe keep) s.out)
            (λ tok c s q row placed before.
              IsSafe-append keep s.out (place_action q) before (IsSafe-place tok c s q row placed))
            cands _ table h

    -- Every action of a round over a table keyed by its tokens is a cancel, or an order for a row
    -- of the table whose price passes every test (days, band, edge, above the best bid, below the
    -- best ask), of at least the least size, on a token with no order that stays.
    pub plan-IsSafe :
        (open_orders : List (OpenOrder W)) (held : Ledger W)
        → IsTable cands
        → All (IsSafe (sweep_open cands cfg open_orders []).1) (plan cands open_orders held cfg)
    unfolding plan
    plan-IsSafe open_orders held table =
        let keep = (sweep_open cands cfg open_orders []).1 in
        IsSafe-place_pass true keep _ table
          (IsSafe-place_pass false keep _ table (IsSafe-sweep_open keep open_orders []))
