-- ===== src/Engine/Place.antt =====
-- place_maker_quote and place_maker_quote_live of cpp/src/pmm/engine.cpp. What the API client answers is
-- a parameter, a throw of it `none`; the time stamp is an argument, and the equity curve is left out.
use polymarket_live_maker.Prelude.{
  Bool, Bytes, Double, List, Option, [], codes, false, fmin, ge, gt, if◌then◌else◌, inl, inr,
  is_empty, le, leb, lit, lt, map, nil, none, not, same_str, some, true, ℕ, ◌&&◌, ◌++◌, ◌+◌, ◌==◌,
  ◌||◌, ◌∷◌, ◌⊎◌, ◌⊖◌, ◌⊗◌, ◌⊘◌,
}
use polymarket_live_maker.OrderBook.{OrderBook, committed_capital}
use polymarket_live_maker.Engine.Store.{MakerQuote, active, Store, update_cash, create_maker_quote}

pub record Token : Type 0 where
  pub token_id : Bytes
  pub outcome : Bytes

-- The fields that the engine reads.
pub record Market : Type 0 where
  pub condition_id : Bytes
  pub slug : Bytes
  pub outcomes : List Bytes
  pub tokens : List Token
  pub closed : Bool

pub record RewardConfig (W : Type 0) : Type 0 where
  pub daily : W
  pub max_spread : W
  pub min_size : W
  pub tick : W

pub record MakerQuoteOpts (W : Type 0) : Type 0 where
  pub size : Option W
  pub half_spread_cents : Option W
  pub cancel_efficiency : W
  pub max_inventory : Option W
  pub skew_strength : W

pub record Api (W : Type 0) : Type 0 where
  pub get_market : Bytes → Option Market
  -- `none` for a throw, `some none` for a market without rewards.
  pub get_reward_config : Bytes → Option (Option (RewardConfig W))
  pub get_midpoint : Bytes → Option W
  pub get_order_book : Bytes → Option (OrderBook W)

pub data EngineError (W : Type 0) : Type 0 where
  not_initialized api_failed no_token : EngineError W
  invalid_outcome market_closed order_rejected : Bytes → EngineError W
  insufficient_balance : W → W → EngineError W

unfoldable pub lower_case : Bytes → Bytes
lower_case = map (λ c. if leb b'A' c && leb c b'Z' then c + 32 else c)

abbrev is_blank : ℕ → Bool
is_blank c = c == 32 || c == 9 || c == 13 || c == 10

unfoldable pub trim_left : Bytes → Bytes
trim_left [] = []
trim_left (c ∷ cs) = if is_blank c then trim_left cs else c ∷ cs

unfoldable pub trim_right : Bytes → Bytes
trim_right [] = []
trim_right (c ∷ cs) =
    let rest = trim_right cs in if is_blank c && is_empty rest then [] else c ∷ rest

unfoldable pub has_outcome : Bytes → List Bytes → Bool
has_outcome outcome [] = false
has_outcome outcome (o ∷ os) = same_str (lower_case o) outcome || has_outcome outcome os

unfoldable pub valid_outcome : Bytes → Market → Bytes × Bool
unfolding lower_case trim_left trim_right has_outcome
valid_outcome outcome_in m =
    let outcome = trim_right (trim_left (lower_case outcome_in)) in
    (outcome, not (is_empty outcome) && has_outcome outcome m.outcomes)

unfoldable pub get_token_id : Bytes → List Token → Option Bytes
get_token_id outcome [] = none
get_token_id outcome (t ∷ ts) =
    if same_str (lower_case t.outcome) (lower_case outcome)
    then some t.token_id
    else get_token_id outcome ts

-- The first other token with a name.
unfoldable pub complement_of : Bytes → List Token → Bytes
complement_of token [] = []
complement_of token (t ∷ ts) =
    if not (same_str t.token_id token) && not (is_empty t.token_id)
    then t.token_id
    else complement_of token ts

abbrev or_value : {W : Type 0} → Option W → W → W
or_value none w = w
or_value (some v) w = v

-- A test that throws, and a value that may be missing.
unfoldable pub refuse {ℓ} :
    {W : Type 0} {A : Type ℓ} → Bool → EngineError W → EngineError W ⊎ A → EngineError W ⊎ A
refuse true e rest = inl e
refuse false e rest = rest

unfoldable pub given {ℓ κ} :
    {W : Type 0} {A : Type ℓ} {B : Type κ}
    → Option A
    → EngineError W
    → (A → EngineError W ⊎ B)
    → EngineError W ⊎ B
given none e k = inl e
given (some a) e k = k a

unfoldable pub with_cash :
    {W : Type 0} → W → EngineError W ⊎ MakerQuote W → EngineError W ⊎ (W × MakerQuote W)
with_cash cash (inl e) = inl e
with_cash cash (inr q) = inr (cash, q)

module _ {W : Type 0} ⦃d : Double W⦄ where
  -- The smaller of the two legs, in money.
  abbrev pub min_leg : W → W → W → W
  min_leg size mid half_spread_c =
      let offset = half_spread_c ⊘ lit 100 0 in size ⊗ fmin (mid ⊖ offset) (lit 1 0 ⊖ mid ⊖ offset)

  unfoldable pub quote_input :
      Market → RewardConfig W → MakerQuoteOpts W → Bytes → Bytes → Bytes → W → Bytes → MakerQuote W
  quote_input m pool opts outcome token complement mid stamp =
      let size = or_value opts.size pool.min_size in
      let half = or_value opts.half_spread_cents (pool.tick ⊗ lit 100 0) in
      record {
        id = 0;
        market_slug = m.slug;
        market_condition_id = m.condition_id;
        outcome = outcome;
        token_id = token;
        complement_token_id = complement;
        size = size;
        half_spread_c = half;
        max_spread_c = pool.max_spread;
        min_size = pool.min_size;
        daily_rate = pool.daily;
        tick = pool.tick;
        cancel_efficiency = opts.cancel_efficiency;
        max_inventory = or_value opts.max_inventory (lit 4 0 ⊗ size);
        skew_strength = opts.skew_strength;
        inventory = nil;
        complement_inventory = nil;
        inventory_pnl = nil;
        entry_mid = mid;
        committed_capital = committed_capital size half;
        accrued_rewards = nil;
        realized_bleed = nil;
        fills = 0;
        status = active;
        last_mid = mid;
        last_accrued_at = stamp;
      }

  -- The tests on the options and the pool, in their order.
  unfoldable pub option_checks {κ} :
      {A : Type κ} → RewardConfig W → MakerQuoteOpts W → EngineError W ⊎ A → EngineError W ⊎ A
  option_checks pool opts rest =
      let size = or_value opts.size pool.min_size in
      let half = or_value opts.half_spread_cents (pool.tick ⊗ lit 100 0) in
      refuse (lt size pool.min_size) (order_rejected (codes "Maker size below pool min_size")) (
        refuse (le half nil || gt half pool.max_spread)
          (order_rejected (codes "half_spread_cents out of (0, max_spread]"))
          (refuse (not (ge opts.cancel_efficiency nil && le opts.cancel_efficiency (lit 1 0)))
            (order_rejected (codes "cancel_efficiency must be in [0, 1]"))
            (refuse (lt opts.skew_strength nil)
              (order_rejected (codes "skew_strength must be >= 0"))
              (refuse (le (or_value opts.max_inventory (lit 4 0 ⊗ size)) nil)
                (order_rejected (codes "max_inventory must be > 0")) rest))))

  -- The tests on the price and the money.
  unfoldable pub money_checks : W → MakerQuote W → EngineError W ⊎ MakerQuote W
  money_checks cash q =
      refuse (not (lt nil q.entry_mid && lt q.entry_mid (lit 1 0)))
        (order_rejected (codes "No valid midpoint to anchor the maker quote"))
        (refuse (lt (min_leg q.size q.entry_mid q.half_spread_c) (lit 1 0))
          (order_rejected (codes "Maker leg notional below exchange minimum"))
          (refuse (gt q.committed_capital cash) (insufficient_balance q.committed_capital cash)
            (inr q)))

  module _ (api : Api W) where
    -- From the pool on: the options, the price and the money.
    unfoldable pub pool_checks :
        W
        → Market
        → Bytes
        → MakerQuoteOpts W
        → Bytes
        → RewardConfig W
        → EngineError W ⊎ (W × MakerQuote W)
    unfolding option_checks money_checks quote_input given with_cash
    pool_checks cash m outcome opts stamp pool = option_checks pool opts (
        given (get_token_id outcome m.tokens) no_token (λ token.
          given (api.get_midpoint token) api_failed (λ mid. with_cash cash (
            money_checks cash
              (quote_input m pool opts outcome token (complement_of token m.tokens) mid stamp)))))

    unfoldable pub market_checks :
        W → Market → Bytes → MakerQuoteOpts W → Bytes → EngineError W ⊎ (W × MakerQuote W)
    unfolding pool_checks valid_outcome refuse given
    market_checks cash m outcome_in opts stamp =
        let outcome = valid_outcome outcome_in m in
        refuse (not outcome.1) (invalid_outcome outcome.0) (
          refuse m.closed (market_closed m.slug) (
            given (api.get_reward_config m.condition_id) api_failed (λ found.
              given found
                (order_rejected (m.slug ++ codes " is not in the liquidity-rewards program"))
                (pool_checks cash m outcome.0 opts stamp))))

    -- All that comes before the first write.
    unfoldable pub place_checks :
        Bytes → Bytes → MakerQuoteOpts W → Bytes → Store W → EngineError W ⊎ (W × MakerQuote W)
    unfolding market_checks given
    place_checks slug outcome_in opts stamp st = given st.cash not_initialized (λ cash.
        given (api.get_market slug) api_failed (λ m. market_checks cash m outcome_in opts stamp))

    -- The writes.
    unfoldable pub place_write :
        EngineError W ⊎ (W × MakerQuote W) → Store W → (EngineError W ⊎ MakerQuote W) × Store W
    place_write (inl e) st = (inl e, st)
    place_write (inr (cash, q)) st =
        let made = create_maker_quote q (update_cash (cash ⊖ q.committed_capital) st) in
        (inr made.0, made.1)

    unfoldable pub place_maker_quote :
        Bytes
        → Bytes
        → MakerQuoteOpts W
        → Bytes
        → Store W
        → (EngineError W ⊎ MakerQuote W) × Store W
    unfolding place_checks place_write
    place_maker_quote slug outcome opts stamp st =
        place_write (place_checks slug outcome opts stamp st) st
