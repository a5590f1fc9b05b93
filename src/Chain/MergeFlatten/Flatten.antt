-- ===== src/Chain/MergeFlatten/Flatten.antt =====
-- EvaluateFlatten of cpp/src/pmm/chain/merge_flatten.cpp: the proceeds of a sale against those of a
-- merge.
use polymarket_live_maker.Prelude.{
  Bool, Double, List, [], false, fmax, fmin, ge, gt, if◌then◌else◌, le, nil, ◌∷◌, ◌⊕◌, ◌⊖◌, ◌⊗◌,
}

pub record BookLevel (W : Type 0) : Type 0 where
  pub price : W
  pub size : W

pub record FlattenDecision (W : Type 0) : Type 0 where
  pub n_shares : W
  pub sell_proceeds_usdc : W
  pub sell_filled : W
  pub buy_complement_cost_usdc : W
  pub complement_filled : W
  pub merge_redeem_usdc : W
  pub merge_net_usdc : W
  pub gas_usdc : W
  pub merge_cheaper : Bool

module _ {W : Type 0} ⦃d : Double W⦄ where
  -- The loop of `sweep`, with `filled` and `cash` so far.
  unfoldable pub sweep : W → List (BookLevel W) → W × W → W × W
  sweep want [] acc = acc
  sweep want (lv ∷ levels) (filled, cash) =
      let amount = fmin (want ⊖ filled) (fmax nil lv.size) in
      let rest = sweep want levels (filled ⊕ amount, cash ⊕ amount ⊗ lv.price) in
      if ge filled want then (filled, cash) else rest

  unfoldable pub evaluate_flatten :
      W → List (BookLevel W) → List (BookLevel W) → W → FlattenDecision W
  unfolding sweep
  evaluate_flatten n_shares yes_bids no_asks gas_usdc =
      let sell = sweep n_shares yes_bids (nil, nil) in
      let complement = sweep n_shares no_asks (nil, nil) in
      let redeem = fmin n_shares complement.0 in
      let net = redeem ⊖ complement.1 ⊖ gas_usdc in
      if le n_shares nil
      then record {
        n_shares = n_shares;
        sell_proceeds_usdc = nil;
        sell_filled = nil;
        buy_complement_cost_usdc = nil;
        complement_filled = nil;
        merge_redeem_usdc = nil;
        merge_net_usdc = nil;
        gas_usdc = gas_usdc;
        merge_cheaper = false;
      }
      else record {
        n_shares = n_shares;
        sell_proceeds_usdc = sell.1;
        sell_filled = sell.0;
        buy_complement_cost_usdc = complement.1;
        complement_filled = complement.0;
        merge_redeem_usdc = redeem;
        merge_net_usdc = net;
        gas_usdc = gas_usdc;
        merge_cheaper = gt net sell.1;
      }
