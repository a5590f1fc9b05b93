-- ===== src/TailVendor/Plan.antt =====
-- `plan` of cpp/src/pmm/tail_vendor.cpp: one round of cancelling and placing.
use polymarket_live_maker.Prelude.{
  Bool, Bytes, Double, List, Option, [], codes, fabs, false, find, find_or, foldl, gt,
  if◌then◌else◌, length, lit, lt, nil, none, not, put, reaches, same_str, some, suc, true, ℕ, ◌&&◌,
  ◌++◌, ◌||◌, ◌∷◌, ◌⊕◌, ◌⊖◌, ◌⊗◌, ◌⊘◌,
}
use polymarket_live_maker.TailVendor.{Candidate, Config, Quote, eps, undercut, decide, should_pull}

pub record OpenOrder (W : Type 0) : Type 0 where
  pub no_token : Bytes
  pub no_price : W
  pub size : W
  pub coin : Bytes
  pub note : Bytes

pub data Kind : Type 0 where
  cancel place : Kind

pub record Action (W : Type 0) : Type 0 where
  pub kind : Kind
  pub no_token : Bytes
  pub no_price : W
  pub size : W
  pub why : Bytes
  pub note : Bytes

-- `total`, `coin`, `market`, and `total_t`, `coin_t` of the touch leg.
pub record Ledger (W : Type 0) : Type 0 where
  pub total : W
  pub total_t : W
  pub coin : List (Bytes × W)
  pub coin_t : List (Bytes × W)
  pub market : List (Bytes × W)

-- The variables of the placing loop.
pub record Round (W : Type 0) : Type 0 where
  pub ledger : Ledger W
  pub n_orders : ℕ
  pub touch_placed : ℕ
  pub out : List (Action W)

abbrev pub Cands : Type 0 → Type 0
Cands W = List (Bytes × Candidate W)

abbrev pub Kept : Type 0 → Type 0
Kept W = List (Bytes × OpenOrder W)

abbrev pub is_some {ℓ} : {A : Type ℓ} → Option A → Bool
is_some none = false
is_some (some a) = true

abbrev pub same_bool : Bool → Bool → Bool
same_bool true b = b
same_bool false b = not b

module _ {W : Type 0} ⦃d : Double W⦄ where
  -- `why`, or `none` for an order that stays.
  unfoldable pub why_of : Candidate W → Config W → OpenOrder W → Option Bytes
  why_of c cfg o =
      if should_pull c cfg
      then some (codes "pull_signal")
      else if lt c.yes_ask (lit 1 0 ⊖ o.no_price ⊖ cfg.tick ⊖ eps)
      then if gt (fabs (lit 1 0 ⊖ undercut c cfg ⊖ o.no_price)) (cfg.tick ⊘ lit 2 0)
        then some (codes "outbid")
        else some (codes "wall_over_floor")
      else none

  unfoldable pub cancel_reason : Cands W → Config W → OpenOrder W → Option Bytes
  cancel_reason cands cfg o = elim (find o.no_token cands) [
    | none ↦ some (codes "left_window")
    | some c ↦ why_of c cfg o
  ]

  abbrev pub cancel_action : OpenOrder W → Bytes → Action W
  cancel_action o why = record {
    kind = cancel;
    no_token = o.no_token;
    no_price = nil;
    size = nil;
    why = why;
    note = o.note;
  }

  -- The first loop: the cancels in order, and `keep`.
  unfoldable pub sweep_open :
      Cands W → Config W → List (OpenOrder W) → Kept W → List (Action W) × Kept W
  sweep_open cands cfg [] keep = ([], keep)
  sweep_open cands cfg (o ∷ os) keep = elim (cancel_reason cands cfg o) [
    | some why ↦ let rest = sweep_open cands cfg os keep in (cancel_action o why ∷ rest.0, rest.1)
    | none ↦ sweep_open cands cfg os (put o.no_token o keep)
  ]

  -- `m[k] += n`.
  abbrev pub bump : Bytes → W → List (Bytes × W) → List (Bytes × W)
  bump k n m = put k (find_or nil k m ⊕ n) m

  unfoldable pub charge_total : Bool → W → Ledger W → Ledger W
  charge_total true n l = record {
    total = l.total;
    total_t = l.total_t ⊕ n;
    coin = l.coin;
    coin_t = l.coin_t;
    market = l.market;
  }
  charge_total false n l = record {
    total = l.total ⊕ n;
    total_t = l.total_t;
    coin = l.coin;
    coin_t = l.coin_t;
    market = l.market;
  }

  unfoldable pub charge_coin : Bool → Bytes → W → Ledger W → Ledger W
  charge_coin true k n l = record {
    total = l.total;
    total_t = l.total_t;
    coin = l.coin;
    coin_t = bump k n l.coin_t;
    market = l.market;
  }
  charge_coin false k n l = record {
    total = l.total;
    total_t = l.total_t;
    coin = bump k n l.coin;
    coin_t = l.coin_t;
    market = l.market;
  }

  unfoldable pub charge_market : Bytes → W → Ledger W → Ledger W
  charge_market tok n l = record {
    total = l.total;
    total_t = l.total_t;
    coin = l.coin;
    coin_t = l.coin_t;
    market = bump tok n l.market;
  }

  abbrev pub is_touch_row : Option (Candidate W) → Bool
  is_touch_row none = false
  is_touch_row (some c) = c.is_touch

  -- One order that stays.
  unfoldable pub charge_kept : Cands W → Ledger W → Bytes × OpenOrder W → Ledger W
  charge_kept cands l (tok, po) =
      let n = po.no_price ⊗ po.size in
      let t = is_touch_row (find tok cands) in
      let charged = charge_total t n (charge_market tok n l) in
      if same_str po.coin [] then charged else charge_coin t po.coin n charged

  abbrev pub place_action : Quote W → Action W
  place_action q = record {
    kind = place;
    no_token = q.no_token;
    no_price = q.no_price;
    size = q.size;
    why = [];
    note = q.note;
  }

  -- The body of the placing loop after a quote was given.
  unfoldable pub place_quote : Candidate W → Quote W → Round W → Round W
  place_quote c q r =
      let notional = q.no_price ⊗ q.size in
      record {
        ledger = charge_coin c.is_touch c.coin notional (charge_total c.is_touch notional r.ledger);
        n_orders = suc r.n_orders;
        touch_placed = if c.is_touch then suc r.touch_placed else r.touch_placed;
        out = r.out ++ (place_action q ∷ []);
      }

  abbrev pub coins : Bool → Ledger W → List (Bytes × W)
  coins touch l = if touch then l.coin_t else l.coin

  abbrev pub total_of : Bool → Ledger W → W
  total_of touch l = if touch then l.total_t else l.total

  unfoldable pub quote_for : Config W → Bytes → Candidate W → Ledger W → Option (Quote W)
  quote_for cfg tok c l =
      decide c cfg (find_or nil tok l.market) (find_or nil c.coin (coins c.is_touch l))
        (total_of c.is_touch l)

  -- One candidate in the pass for `want_touch`; `none` stands for `break`.
  unfoldable pub consider :
      Bool → Config W → Kept W → Bytes → Candidate W → Round W → Option (Round W)
  consider want_touch cfg keep tok c r =
      if not (same_bool c.is_touch want_touch) || is_some (find tok keep)
      then some r
      else if reaches r.n_orders cfg.max_orders
          || want_touch && reaches r.touch_placed cfg.touch_max_orders
      then none
      else elim (quote_for cfg tok c r.ledger) [ none ↦ some r | some q ↦ some (place_quote c q r) ]

  unfoldable pub place_loop : Bool → Config W → Kept W → Cands W → Round W → Round W
  place_loop want_touch cfg keep [] r = r
  place_loop want_touch cfg keep ((tok, c) ∷ cands) r =
      elim (consider want_touch cfg keep tok c r) [
        | none ↦ r
        | some next ↦ place_loop want_touch cfg keep cands next
      ]

  unfoldable pub place_pass : Bool → Config W → Kept W → Cands W → Round W → Round W
  place_pass want_touch cfg keep cands r =
      place_loop want_touch cfg keep cands
        (record { ledger = r.ledger; n_orders = r.n_orders; touch_placed = 0; out = r.out })

  -- The ledger before anything is placed: what is held, then what stays, in the order of its keys.
  unfoldable pub opening : Cands W → Kept W → Ledger W → Ledger W
  opening cands keep held = foldl (charge_kept cands) held keep

  -- `held` holds the five arguments `held_*`.
  unfoldable pub plan : Cands W → List (OpenOrder W) → Ledger W → Config W → List (Action W)
  plan cands open_orders held cfg =
      let swept = sweep_open cands cfg open_orders [] in
      let keep = swept.1 in
      let start : Round W = record {
        ledger = opening cands keep held;
        n_orders = length keep;
        touch_placed = 0;
        out = swept.0;
      } in
      (place_pass true cfg keep cands (place_pass false cfg keep cands start)).out
