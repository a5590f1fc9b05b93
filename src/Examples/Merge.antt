-- ===== src/Examples/Merge.antt =====
-- The merge behind its gates at concrete inputs; the network answers every query with 0x10.
use polymarket_live_maker.Prelude.{[], arith, codes, inr, refl, replicate, true, ℤ, ◌%◌, ◌^◌, ◌≡◌}
use mathlib.Core.Option
use polymarket_live_maker.Examples.Crypto.{toy_secp, toy_key}
use polymarket_live_maker.Crypto.Hex.{address_from_hex}
use polymarket_live_maker.Chain.Rpc.{Wire, result_of, parse_hex_qty}
use polymarket_live_maker.Chain.Rpc.Quantity.{hex_number, IsChar, parse_hex_qty_value}
use polymarket_live_maker.Chain.MergeFlatten.{
  MergeQuote, MergeExecutor, route_of, route_for, maybe_merge,
}
use polymarket_live_maker.Chain.MergeFlatten.Gates.{IsGated, maybe_merge-IsGated}
use polymarket_live_maker.Chain.MergeFlatten.Route.{IsQuote, IsMergeRoute, route_for-IsMergeRoute}

abbrev wire : Wire
wire = record {
  perform = λ log url body. (inr (codes "0x10"), 200);
  read = λ body. result_of body;
  dump_call = λ d f t. [];
}

abbrev armed : MergeExecutor
armed = record {
  arm = record { decision_on = true; real_funds_armed = true };
  rpc_url = codes "https://rpc/";
  funder_lc = [];
  sig_type = ℤ.pos 1;
}

abbrev a_quote : MergeQuote
a_quote = record { collateral = replicate 20 7; condition_id = replicate 32 5; amount = 9000000 }

maybe_merge-IsGated_example :
    IsGated wire toy_secp armed a_quote toy_key []
      (maybe_merge wire toy_secp armed a_quote toy_key [])
maybe_merge-IsGated_example = maybe_merge-IsGated wire toy_secp armed a_quote toy_key []

a_quote-IsQuote : IsQuote a_quote
unfolding IsQuote
a_quote-IsQuote = (refl, refl, omega arith)

a_quote-routed : (route_for armed a_quote).ok ≡ true
unfolding route_for route_of address_from_hex
a_quote-routed = refl

route_for-IsMergeRoute_example : IsMergeRoute armed.sig_type a_quote (route_for armed a_quote)
route_for-IsMergeRoute_example = route_for-IsMergeRoute armed a_quote a_quote-IsQuote a_quote-routed

parse_hex_qty_value_example :
    parse_hex_qty (codes "0x1f") ≡ Option.map (λ v. v % 2 ^ 64) (hex_number 0 (codes "1f"))
unfolding IsChar
parse_hex_qty_value_example = parse_hex_qty_value b'1' (codes "f") (refl, (refl, tt))
