-- ===== src/Clob/Amounts.antt =====
-- The amounts of an order, from the top of cpp/src/pmm/clob_submitter.cpp. The cast of a `double` to
-- `std::int64_t` and on to `std::uint64_t` is a parameter.
use polymarket_live_maker.Prelude.{
  Bool, Bytes, Double, ceil, codes, false, floor, gt, if◌then◌else◌, lit, nearbyint, nil, same_str,
  suc, true, zero, ℕ, ◌+◌, ◌⊕◌, ◌⊖◌, ◌⊗◌, ◌⊘◌,
}

pub record RoundConfig : Type 0 where
  pub price : ℕ
  pub size : ℕ
  pub amount : ℕ

pub record OrderAmounts : Type 0 where
  pub maker_amount : ℕ
  pub taker_amount : ℕ
  pub side : ℕ

unfoldable pub round_config : Bytes → RoundConfig
round_config tick_size =
    if same_str tick_size (codes "0.1")
    then record { price = 1; size = 2; amount = 3 }
    else if same_str tick_size (codes "0.01")
    then record { price = 2; size = 2; amount = 4 }
    else if same_str tick_size (codes "0.001")
    then record { price = 3; size = 2; amount = 5 }
    else if same_str tick_size (codes "0.0001")
    then record { price = 4; size = 2; amount = 6 }
    else record { price = 2; size = 2; amount = 4 }

module _ {W : Type 0} ⦃d : Double W⦄ where
  -- The loop multiplies 1 by 10, one round after another.
  unfoldable pub pow10i : ℕ → W
  pow10i zero = lit 1 0
  pow10i (suc n) = pow10i n ⊗ lit 10 0

  unfoldable pub round_normal : W → ℕ → W
  round_normal x n = nearbyint (x ⊗ pow10i n) ⊘ pow10i n

  unfoldable pub round_down : W → ℕ → W
  round_down x n = floor (x ⊗ pow10i n ⊕ lit 1 6) ⊘ pow10i n

  unfoldable pub round_up : W → ℕ → W
  round_up x n = ceil (x ⊗ pow10i n ⊖ lit 1 6) ⊘ pow10i n

  -- A product or quotient, up and then down again.
  abbrev settle : W → RoundConfig → W
  settle raw rc = round_down (round_up raw (rc.amount + 4)) rc.amount

  module _ (to_u64 : W → ℕ) where
    unfoldable pub to_token_decimals : W → ℕ
    to_token_decimals x = to_u64 (nearbyint (lit 1000000 0 ⊗ x))

    abbrev amounts : Bool → W → W → OrderAmounts
    amounts is_buy raw_maker raw_taker = record {
      maker_amount = to_token_decimals raw_maker;
      taker_amount = to_token_decimals raw_taker;
      side = if is_buy then 0 else 1;
    }

    unfoldable pub get_order_amounts : Bool → W → W → RoundConfig → OrderAmounts
    unfolding to_token_decimals round_normal round_down round_up
    get_order_amounts is_buy size price rc =
        let raw_price = round_normal price rc.price in
        let shares = round_down size rc.size in
        let money = settle (shares ⊗ raw_price) rc in
        if is_buy then amounts true money shares else amounts false shares money

    unfoldable pub get_market_order_amounts : Bool → W → W → RoundConfig → OrderAmounts
    unfolding to_token_decimals round_normal round_down round_up
    get_market_order_amounts is_buy amount price rc =
        let raw_price = round_normal price rc.price in
        let raw_maker = round_down amount rc.size in
        let bought = if gt raw_price nil then raw_maker ⊘ raw_price else nil in
        if is_buy
        then amounts true raw_maker (settle bought rc)
        else amounts false raw_maker (settle (raw_maker ⊗ raw_price) rc)
