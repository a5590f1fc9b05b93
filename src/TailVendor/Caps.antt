-- ===== src/TailVendor/Caps.antt =====
-- The money bounds of a whole round, counted from its actions.
use polymarket_live_maker.Prelude.{
  Bool, Bool-cases, Bytes, Double, List, [], arith, false, find, find-put, find_or, gt,
  if◌then◌else◌, inl, inr, length, nil, same_str, same_str_sound, some, sym, true, ◌&&◌, ◌≡◌, ◌⊎◌,
  ◌⊕◌, ◌⊗◌,
}
use polymarket_live_maker.TailVendor.{Candidate, Config, Quote, eps, cap_coin, cap_total, over_cap}
use polymarket_live_maker.TailVendor.Guards.{decide-IsQuote}
use polymarket_live_maker.TailVendor.Plan.{
  OpenOrder, Action, Ledger, Round, Cands, Kept, same_bool, sweep_open, charge_total, charge_coin,
  place_action, place_quote, coins, total_of, quote_for, place_pass, opening, plan,
}
use polymarket_live_maker.TailVendor.Ledger.{
  IsRow, IsTable, place_loop_inv, counted_place, quote_token, spent, tally, spent-append,
  tally-append, spent-sweep_open, tally-sweep_open,
}

same_bool_sound : (a b : Bool) → same_bool a b ≡ true → a ≡ b
same_bool_sound a b h = ground arith

module _ {W : Type 0} ⦃d : Double W⦄ where
  -- A sum that the code keeps for some of the rows, and the bound that a quote for one respects.
  pub record Account (cfg : Config W) : Type 0 where
    pub sel : Candidate W → Bool
    pub sum : Ledger W → W
    pub cap : W
    pub moves :
        (c : Candidate W) (q : Quote W) (r : Round W)
        → sum (place_quote c q r).ledger
          ≡ (if sel c then sum r.ledger ⊕ q.no_price ⊗ q.size else sum r.ledger)
    pub capped :
        (tok : Bytes) (c : Candidate W) (l : Ledger W) (q : Quote W)
        → sel c ≡ true
        → quote_for cfg tok c l ≡ some q
        → gt (sum l ⊕ q.no_price ⊗ q.size) (cap ⊕ eps) ≡ false

  module _ (cfg : Config W) (cands : Cands W) (a : Account cfg) (start : W) where
    -- The sum is what the actions say, and within the bound once an order is placed.
    abbrev Within : Round W → Type 0
    Within r =
        (a.sum r.ledger ≡ spent a.sel cands start r.out)
        × ((tally a.sel cands r.out ≡ 0) ⊎ (gt (a.sum r.ledger) (a.cap ⊕ eps) ≡ false))

    Within-place :
        (tok : Bytes) (c : Candidate W) (r : Round W) (q : Quote W)
        → IsRow cands (tok, c)
        → quote_for cfg tok c r.ledger ≡ some q
        → Within r
        → Within (place_quote c q r)
    unfolding place_quote
    Within-place tok c r q row quoted (same, bound) =
        let mark =
          counted_place a.sel cands tok c q row (quote_token cfg tok c r.ledger q quoted) in
        let out_sum = spent-append a.sel cands r.out start (place_action q) in
        let out_count = tally-append a.sel cands r.out (place_action q) in
        let moved = a.moves c q r in
        elim (Bool-cases (a.sel c)) [
          | inl e ↦ (
            cc (mark, out_sum, moved, e, same),
            inr (cc (moved, e, a.capped tok c r.ledger q e quoted)),
          )
          | inr e ↦ (
            cc (mark, out_sum, moved, e, same),
            elim bound [
              | inl none_yet ↦ inl (cc (out_count, mark, e, none_yet))
              | inr below ↦ inr (cc (moved, e, below))
            ],
          )
        ]

    Within-place_pass :
        (w : Bool) (keep : Kept W) (r : Round W)
        → IsTable cands
        → Within r
        → Within (place_pass w cfg keep cands r)
    unfolding place_pass
    Within-place_pass w keep r table h =
        place_loop_inv w cfg keep (IsRow cands) Within
          (λ tok c s q row placed. Within-place tok c s q row placed.quoted) cands _ table h

  -- What a round counts for an account.
  abbrev IsWithin : {cfg : Config W} → Account cfg → Cands W → W → List (Action W) → Type 0
  IsWithin a cands start out =
      (tally a.sel cands out ≡ 0) ⊎ (gt (spent a.sel cands start out) (a.cap ⊕ eps) ≡ false)

  module _ (cfg : Config W) (cands : Cands W) (open_orders : List (OpenOrder W))
      (held : Ledger W) where
    -- The ledger when the cancelled orders have gone.
    abbrev pub opened : Ledger W
    opened = opening cands (sweep_open cands cfg open_orders []).1 held

    plan_account :
        IsTable cands
        → (a : Account cfg) → IsWithin a cands (a.sum opened) (plan cands open_orders held cfg)
    unfolding plan
    plan_account table a =
        let swept = sweep_open cands cfg open_orders [] in
        let r0 : Round W = record {
          ledger = opened;
          n_orders = length swept.1;
          touch_placed = 0;
          out = swept.0;
        } in
        let begin : Within cfg cands a (a.sum opened) r0 = (
          sym (spent-sweep_open a.sel cands cfg (a.sum opened) open_orders []),
          inl (tally-sweep_open a.sel cands cfg open_orders []),
        ) in
        let (same, bound) =
          Within-place_pass cfg cands a (a.sum opened) true swept.1 _ table
            (Within-place_pass cfg cands a (a.sum opened) false swept.1 r0 table begin) in
        elim bound [ inl e ↦ inl e | inr e ↦ inr (rw (← same) e) ]

  total-place_quote :
      (touch : Bool) (c : Candidate W) (q : Quote W) (r : Round W)
      → total_of touch (place_quote c q r).ledger ≡ (
          if same_bool c.is_touch touch
          then total_of touch r.ledger ⊕ q.no_price ⊗ q.size
          else total_of touch r.ledger)
  unfolding place_quote charge_coin charge_total
  total-place_quote touch c q r = ground arith

  coin-place_quote :
      (touch : Bool) (k : Bytes) (c : Candidate W) (q : Quote W) (r : Round W)
      → find_or nil k (coins touch (place_quote c q r).ledger) ≡ (
          if same_bool c.is_touch touch && same_str k c.coin
          then find_or nil k (coins touch r.ledger) ⊕ q.no_price ⊗ q.size
          else find_or nil k (coins touch r.ledger))
  unfolding place_quote charge_coin charge_total
  coin-place_quote touch k c q r = ground (
    arith,
    find-put c.coin k (find_or nil c.coin (coins touch r.ledger) ⊕ q.no_price ⊗ q.size)
        (coins touch r.ledger),
    same_str_sound k c.coin,
  )

  module _ (times_comm : (x y : W) → x ⊗ y ≡ y ⊗ x) (cfg : Config W) (touch : Bool) where
    total_capped :
        (tok : Bytes) (c : Candidate W) (l : Ledger W) (q : Quote W)
        → same_bool c.is_touch touch ≡ true
        → quote_for cfg tok c l ≡ some q
        → gt (total_of touch l ⊕ q.no_price ⊗ q.size) (cap_total touch cfg ⊕ eps) ≡ false
    unfolding quote_for over_cap
    total_capped tok c l q e h =
        let leg = same_bool_sound c.is_touch touch e in
        rw (← leg, times_comm q.no_price q.size) (decide-IsQuote c cfg _ _ _ q h).2.total

    coin_capped :
        (k tok : Bytes) (c : Candidate W) (l : Ledger W) (q : Quote W)
        → same_bool c.is_touch touch && same_str k c.coin ≡ true
        → quote_for cfg tok c l ≡ some q
        → gt (find_or nil k (coins touch l) ⊕ q.no_price ⊗ q.size) (cap_coin touch k cfg ⊕ eps)
          ≡ false
    unfolding quote_for over_cap
    coin_capped k tok c l q e h =
        let leg = same_bool_sound c.is_touch touch (ground arith) in
        let name : k ≡ c.coin = same_str_sound k c.coin (ground arith) in
        rw (← leg, name, times_comm q.no_price q.size) (decide-IsQuote c cfg _ _ _ q h).2.coin

    total_account : Account cfg
    total_account = record {
      sel = λ c. same_bool c.is_touch touch;
      sum = total_of touch;
      cap = cap_total touch cfg;
      moves = total-place_quote touch;
      capped = total_capped;
    }

    coin_account : Bytes → Account cfg
    coin_account k = record {
      sel = λ c. same_bool c.is_touch touch && same_str k c.coin;
      sum = λ l. find_or nil k (coins touch l);
      cap = cap_coin touch k cfg;
      moves = coin-place_quote touch k;
      capped = coin_capped k;
    }

    module _ (cands : Cands W) (open_orders : List (OpenOrder W)) (held : Ledger W)
        (table : IsTable cands) where
      -- From the ledger with which the placing begins.
      pub opened_total_cap :
          (tally (λ c. same_bool c.is_touch touch) cands (plan cands open_orders held cfg) ≡ 0)
          ⊎ (gt
                (spent
                  (λ c. same_bool c.is_touch touch)
                  cands
                  (total_of touch (opened cfg cands open_orders held))
                  (plan cands open_orders held cfg))
                (cap_total touch cfg ⊕ eps)
              ≡ false)
      unfolding total_account cap_total
      opened_total_cap = plan_account cfg cands open_orders held table total_account

      pub opened_coin_cap :
          (k : Bytes)
          → (tally
                (λ c. same_bool c.is_touch touch && same_str k c.coin)
                cands
                (plan cands open_orders held cfg)
              ≡ 0)
            ⊎ (gt
                  (spent
                    (λ c. same_bool c.is_touch touch && same_str k c.coin)
                    cands
                    (find_or nil k (coins touch (opened cfg cands open_orders held)))
                    (plan cands open_orders held cfg))
                  (cap_coin touch k cfg ⊕ eps)
                ≡ false)
      unfolding coin_account cap_coin find
      opened_coin_cap k = plan_account cfg cands open_orders held table (coin_account k)
