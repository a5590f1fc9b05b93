-- ===== src/Examples/TailVendor.antt =====
-- The tail seller, the simulated fills, the wire format and the bot at concrete inputs.
use polymarket_live_maker.Prelude.{
  All, Bytes, Nanos, [], arith, codes, exceeds, false, find, find_or, gt, lit, nanos_double, nil,
  none, refl, replicate, same_str, take, true, ℤ, ◌&&◌, ◌↔◌, ◌∷◌, ◌≡◌, ◌⊎◌, ◌⊕◌, ◌⊗◌,
}
use polymarket_live_maker.TailVendor.{Candidate, Config, eps, cap_coin, cap_total}
use polymarket_live_maker.TailVendor.Fate.{IsSafe, plan-IsSafe}
use polymarket_live_maker.TailVendor.Sweep.{Handles, sweep_open-Handles}
use polymarket_live_maker.TailVendor.Standing.{standing, stands, of_leg, of_coin}
use polymarket_live_maker.TailVendor.Money.{plan-total_cap, plan-coin_cap}
use polymarket_live_maker.TailVendor.Plan.{
  OpenOrder, Ledger, Cands, same_bool, coins, total_of, sweep_open, plan,
}
use polymarket_live_maker.TailVendor.Ledger.{IsTable, spent, tally}
use polymarket_live_maker.TailVendor.Sheet.{
  SheetEntry, IsEntry, IsDistinct, notional_from, validate_sheet, validate_sheet_iff,
}
use polymarket_live_maker.Wire.Base64.{base64url_encode, base64url_decode, base64url_decode-encode}
use polymarket_live_maker.Wire.Auth.{compute_l2_signature, decode-compute_l2_signature}
use polymarket_live_maker.Maker.Bot.{Settings, LiveMakerBot}
use polymarket_live_maker.Maker.Steps.{IsSigned}

abbrev zero_mac : Bytes
zero_mac = replicate 32 0

abbrev btc_row : Candidate Nanos
btc_row = record {
  cond = codes "c";
  slug = codes "s";
  yes_token = codes "1";
  no_token = codes "2";
  coin = codes "btc";
  yes_bid = lit 1 2;
  yes_ask = lit 5 2;
  days_left = lit 3 0;
  band_clamp = false;
  is_touch = false;
  wl_collateral = nil;
  wl_fair = nil;
}

abbrev pub cands : Cands Nanos
cands = (codes "2", btc_row) ∷ []

abbrev pub cfg : Config Nanos
cfg = record {
  yes_min = lit 2 2;
  yes_max = lit 7 2;
  yes_exit = lit 1 1;
  floor_yes = lit 2 2;
  min_edge = lit 8 3;
  days_min = lit 1 0;
  days_max = lit 6 0;
  per_order_usd = lit 20 0;
  per_coin_usd = lit 60 0;
  per_coin_alt_usd = nil;
  per_market_usd = lit 25 0;
  total_usd = lit 60 0;
  max_orders = ℤ.pos 8;
  min_shares = lit 5 0;
  tick = lit 1 3;
  touch_per_order_usd = nil;
  touch_per_market_usd = nil;
  touch_per_coin_usd = nil;
  touch_total_usd = nil;
  touch_max_orders = ℤ.pos 8;
}

abbrev pub held : Ledger Nanos
held = record { total = nil; total_t = nil; coin = []; coin_t = []; market = [] }

abbrev pub stale : OpenOrder Nanos
stale = record {
  no_token = codes "9";
  no_price = lit 95 2;
  size = lit 20 0;
  coin = codes "eth";
  note = [];
}

pub cands-IsTable : IsTable cands
unfolding find same_str
cands-IsTable = ((refl, refl), tt)

nanos_comm : (x y : Nanos) → x ⊗ y ≡ y ⊗ x
nanos_comm x y = omega arith

plan-total_cap_example :
    let out = plan cands (stale ∷ []) held cfg in
    let leg = λ (c : Candidate Nanos). same_bool c.is_touch false in
    let stay = stands (of_leg cands false) (total_of false held) (standing out (stale ∷ []) []) in
    (tally leg cands out ≡ 0) ⊎ (gt (spent leg cands stay out) (cap_total false cfg ⊕ eps) ≡ false)
plan-total_cap_example =
    plan-total_cap nanos_comm cfg false cands (stale ∷ []) held cands-IsTable (tt, tt)

plan-coin_cap_example :
    let out = plan cands (stale ∷ []) held cfg in
    let leg =
      λ (c : Candidate Nanos). same_bool c.is_touch false && same_str (codes "btc") c.coin in
    let stay =
      stands
        (of_coin cands false (codes "btc"))
        (find_or nil (codes "btc") (coins false held))
        (standing out (stale ∷ []) []) in
    (tally leg cands out ≡ 0)
    ⊎ (gt (spent leg cands stay out) (cap_coin false (codes "btc") cfg ⊕ eps) ≡ false)
plan-coin_cap_example =
    plan-coin_cap nanos_comm cfg false cands (stale ∷ []) held cands-IsTable (tt, tt) (codes "btc")
      (unfold same_str in refl)

plan-IsSafe_example :
    All
      (IsSafe cands cfg (sweep_open cands cfg (stale ∷ []) []).1)
      (plan cands (stale ∷ []) held cfg)
plan-IsSafe_example = plan-IsSafe cands cfg (stale ∷ []) held cands-IsTable

sweep_open-Handles_example : Handles cands cfg [] (stale ∷ [])
sweep_open-Handles_example = sweep_open-Handles cands cfg (stale ∷ []) [] (tt, tt)

abbrev entry : SheetEntry Nanos
entry = record { no_token = codes "77"; no_price = lit 95 2; size = lit 20 0; note = [] }

validate_sheet_iff_example : (validate_sheet (λ n. []) cfg (entry ∷ []) ≡ none) ↔ (
    (exceeds 1 cfg.max_orders ≡ false)
    × All (IsEntry (λ n. []) cfg) (entry ∷ [])
    × IsDistinct (λ n. []) cfg (entry ∷ [])
    × (gt (notional_from (λ n. []) cfg nil (entry ∷ [])) (cfg.total_usd ⊕ eps) ≡ false))
validate_sheet_iff_example = validate_sheet_iff (λ n. []) cfg (entry ∷ [])

base64url_decode-encode_example :
    base64url_decode (base64url_encode (1 ∷ 255 ∷ [])) ≡ (1 ∷ 255 ∷ [])
base64url_decode-encode_example = base64url_decode-encode (1 ∷ 255 ∷ []) (omega arith)

decode-compute_l2_signature_example :
    base64url_decode (
      compute_l2_signature
        (λ key text. take 32 zero_mac)
        (base64url_encode (5 ∷ []))
        (codes "1")
        (codes "GET")
        (codes "/x")
        [])
    ≡ take 32 zero_mac
decode-compute_l2_signature_example =
    decode-compute_l2_signature (λ key text. take 32 zero_mac) (λ key text. omega arith) (5 ∷ [])
      (codes "1") (codes "GET") (codes "/x") [] (omega arith)

abbrev pub bot_settings : Settings Nanos
bot_settings = record {
  token_id = codes "2";
  external_fills = true;
  max_spread_c = lit 3 0;
  tick = lit 1 2;
  half_spread_c = lit 1 0;
  size = lit 50 0;
  dry_run = true;
  jump_exit_ticks = lit 3 0;
  max_inventory = lit 250 0;
  skew_strength_ticks = lit 2 0;
}

abbrev pub flat : LiveMakerBot Nanos
flat = record { last_mid = none; halted = false; inventory = nil; last_bid = none; last_ask = none }

pub nanos-IsSigned : IsSigned Nanos
nanos-IsSigned = ground arith
