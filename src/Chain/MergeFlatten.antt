-- ===== src/Chain/MergeFlatten.antt =====
-- cpp/src/pmm/chain/merge_flatten.cpp: whether a merge is the cheaper way out, and the execution of a
-- merge behind its two gates. A key of the JSON report that is not set is `none`.
pub mod Flatten
pub mod Gates
pub mod Route
use polymarket_live_maker.Prelude.{
  Bool, Bytes, Double, List, Option, [], codes, false, if◌then◌else◌, is_empty, leb, map, none, not,
  replicate, set, some, suc, to_string, true, zero, ℕ, ℤ, ◌%◌, ◌&&◌, ◌*◌, ◌++◌, ◌+◌, ◌/◌, ◌^◌, ◌∷◌,
}
use polymarket_live_maker.Env.{str, flag_eq, i}
use polymarket_live_maker.Crypto.Hex.{to_hex, address_from_hex}
use polymarket_live_maker.Crypto.Signer.{Secp, derive_address}
use polymarket_live_maker.OrderBook.{OrderBookLevel}
use polymarket_live_maker.Chain.Ctf.{ctf_address, polygon_chain_id, encode_merge_positions_binary}
use polymarket_live_maker.Chain.ProxyExec.{proxy_wallet_factory, encode_proxy_exec}
use polymarket_live_maker.Chain.Eip1559.{Eip1559Tx, SignedTx, sign_tx}
use polymarket_live_maker.Chain.Rpc.{
  RpcResult, Request, Wire, drop_slashes, transaction_count, max_priority_fee_per_gas, gas_price,
  estimate_gas, send_raw_transaction,
}

pub record MergeQuote : Type 0 where
  pub collateral : Bytes
  pub condition_id : Bytes
  pub amount : ℕ

pub record ArmStatus : Type 0 where
  pub decision_on : Bool
  pub real_funds_armed : Bool

pub record MergeRoute : Type 0 where
  pub to : Bytes
  pub call_data : Bytes
  pub signature_type : ℤ
  pub via_proxy : Bool
  pub ok : Bool
  pub reason : Bytes

pub record MergeExecutor : Type 0 where
  pub arm : ArmStatus
  pub rpc_url : Bytes
  pub funder_lc : Bytes
  pub sig_type : ℤ

-- The report, but for `amount`, `signature_type` and the two flags, which repeat what was given.
pub record MergeReport : Type 0 where
  pub executed : Bool
  pub via_proxy : Bool
  pub reason : Bytes
  pub to : Option Bytes
  pub call_data : Option Bytes
  pub raw_tx : Option Bytes
  pub tx_hash : Option Bytes
  pub nonce : Option ℕ
  pub gas : Option ℕ
  pub max_fee_wei : Option ℕ
  pub send_result : Option Bytes
  pub http : Option ℕ

abbrev zero_address : Bytes
zero_address = replicate 20 0

-- `std::to_string` of an `int`.
unfoldable pub int_to_string : ℤ → Bytes
int_to_string (ℤ.pos n) = to_string n
int_to_string (ℤ.negsuc n) = b'-' ∷ to_string (suc n)

unfoldable pub to_lower_ascii : Bytes → Bytes
to_lower_ascii = map (λ c. if leb b'A' c && leb c b'Z' then c + 32 else c)

unfoldable pub arm_status : (Bytes → Option Bytes) → ArmStatus
arm_status getenv = record {
  decision_on = flag_eq getenv (codes "LM_FLATTEN_VIA_MERGE") (codes "1") (codes "0");
  real_funds_armed = flag_eq getenv (codes "LM_MERGE_ARM_REAL_FUNDS") (codes "1") (codes "0");
}

unfoldable pub new_executor :
    {W : Type 0} ⦃d : Double W⦄
    → (Bytes → Option (W × ℕ))
    → (W → ℤ)
    → (Bytes → Option Bytes)
    → MergeExecutor
unfolding arm_status to_lower_ascii
new_executor stod to_int getenv = record {
  arm = arm_status getenv;
  rpc_url = str getenv (codes "POLYGON_RPC_URL") [];
  funder_lc = to_lower_ascii (str getenv (codes "POLYMARKET_FUNDER") []);
  sig_type = i getenv stod to_int (codes "POLYMARKET_SIGNATURE_TYPE") (ℤ.pos 0);
}

abbrev no_route : ℤ → Bytes → MergeRoute
no_route sig_type reason = record {
  to = zero_address;
  call_data = [];
  signature_type = sig_type;
  via_proxy = false;
  ok = false;
  reason = reason;
}

-- The route of a signature type, once the two addresses are read.
unfoldable pub route_of : ℤ → Bytes → Option Bytes → Option Bytes → MergeRoute
unfolding int_to_string
route_of t inner none factory = no_route t (codes "cannot parse CTF address")
route_of (ℤ.pos zero) inner (some ctf) factory = record {
  to = ctf;
  call_data = inner;
  signature_type = ℤ.pos 0;
  via_proxy = false;
  ok = true;
  reason = [];
}
route_of (ℤ.pos (suc zero)) inner (some ctf) none =
    no_route (ℤ.pos 1) (codes "cannot parse ProxyWalletFactory address")
route_of (ℤ.pos (suc zero)) inner (some ctf) (some factory) = record {
  to = factory;
  call_data = encode_proxy_exec ctf inner;
  signature_type = ℤ.pos 1;
  via_proxy = true;
  ok = true;
  reason = [];
}
route_of t inner (some ctf) factory = no_route t (
    codes "unsupported POLYMARKET_SIGNATURE_TYPE="
    ++ (int_to_string t ++ codes " (only 0=EOA / 1=POLY_PROXY routed)"))

unfoldable pub route_for : MergeExecutor → MergeQuote → MergeRoute
unfolding route_of
route_for ex q =
    route_of ex.sig_type (encode_merge_positions_binary q.collateral q.condition_id q.amount)
      (address_from_hex ctf_address) (address_from_hex proxy_wallet_factory)

abbrev pub merge_tx : MergeRoute → ℕ → ℕ → ℕ → ℕ → Eip1559Tx
merge_tx route nonce priority max_fee gas = record {
  chain_id = polygon_chain_id;
  nonce = nonce;
  max_priority_fee_per_gas = priority;
  max_fee_per_gas = max_fee;
  gas_limit = gas;
  to = route.to;
  value = 0;
  call_data = route.call_data;
}

unfoldable pub build_and_sign :
    Secp → MergeExecutor → MergeQuote → Bytes → ℕ → ℕ → ℕ → ℕ → Option SignedTx
build_and_sign c ex q private_key nonce priority max_fee gas =
    let route = route_for ex q in
    if not route.ok then none else sign_tx c (merge_tx route nonce priority max_fee gas) private_key

-- A report that names its reason, before and after the route is known.
abbrev pub unrouted : MergeRoute → Bytes → MergeReport
unrouted route reason = record {
  executed = false;
  via_proxy = route.via_proxy;
  reason = reason;
  to = none;
  call_data = none;
  raw_tx = none;
  tx_hash = none;
  nonce = none;
  gas = none;
  max_fee_wei = none;
  send_result = none;
  http = none;
}

abbrev pub refused : MergeRoute → Bytes → MergeReport
refused route reason = record (unrouted route reason) {
  to = some (to_hex route.to);
  call_data = some (to_hex route.call_data);
}

abbrev pub built : MergeRoute → SignedTx → ℕ → ℕ → ℕ → MergeReport
built route tx nonce gas max_fee =
    record (refused route (
      codes "DRY: LM_MERGE_ARM_REAL_FUNDS not set "
      ++ (0xe2 ∷ 0x80 ∷ 0x94 ∷ codes " raw tx built+signed but NOT sent"))) {
        raw_tx = some (to_hex tx.raw);
        tx_hash = some (to_hex tx.tx_hash);
        nonce = some nonce;
        gas = some gas;
        max_fee_wei = some max_fee;
      }

abbrev pub sent : MergeReport → RpcResult → MergeReport
sent r result = record r {
  executed = result.ok;
  send_result = some result.value;
  http = some result.http;
  reason = if result.ok then codes "sent" else codes "send failed";
}

module _ (w : Wire) (c : Secp) (ex : MergeExecutor) (q : MergeQuote) (private_key : Bytes) where
  -- After the signature: the second gate.
  unfoldable pub finish : ℕ → ℕ → ℕ → Option SignedTx → List Request → MergeReport × List Request
  finish nonce gas max_fee none log = (refused (route_for ex q) (codes "BuildAndSign failed"), log)
  finish nonce gas max_fee (some tx) log =
      let r = built (route_for ex q) tx nonce gas max_fee in
      let send = send_raw_transaction w (drop_slashes ex.rpc_url) tx.raw log in
      if not ex.arm.real_funds_armed then (r, log) else (sent r send.0, send.1)

  abbrev or_else : Option ℕ → ℕ → ℕ
  or_else none v = v
  or_else (some x) v = x

  -- `priority` and `max_fee`, and the gas with a fifth more, in `uint64_t`.
  unfoldable pub priority_of : Option ℕ → ℕ
  priority_of tip = or_else tip 30000000000

  unfoldable pub max_fee_of : ℕ → ℕ → ℕ
  max_fee_of gas_price priority = (gas_price * 2 + priority) % 2 ^ 64

  unfoldable pub gas_of : Option ℕ → ℕ
  gas_of estimate = or_else estimate 200000 * 12 % 2 ^ 64 / 10

  unfoldable pub with_fees :
      Bytes → Option ℕ → Option ℕ → Option ℕ → List Request → MergeReport × List Request
  unfolding finish priority_of max_fee_of gas_of
  with_fees from none tip gp log =
      (refused (route_for ex q) (codes "RPC nonce/gasPrice query failed"), log)
  with_fees from (some nonce) tip none log =
      (refused (route_for ex q) (codes "RPC nonce/gasPrice query failed"), log)
  with_fees from (some nonce) tip (some gp) log =
      let route = route_for ex q in
      let priority = priority_of tip in
      let max_fee = max_fee_of gp priority in
      let est =
        estimate_gas w (drop_slashes ex.rpc_url) from (to_hex route.to) route.call_data log in
      let gas = gas_of est.0 in
      finish nonce gas max_fee (build_and_sign c ex q private_key nonce priority max_fee gas) est.1

  unfoldable pub with_eoa : Option Bytes → List Request → MergeReport × List Request
  unfolding with_fees
  with_eoa none log = (refused (route_for ex q) (codes "cannot derive EOA"), log)
  with_eoa (some eoa) log =
      let url = drop_slashes ex.rpc_url in
      let from = to_hex eoa in
      let nonce = transaction_count w url from log in
      let tip = max_priority_fee_per_gas w url nonce.1 in
      let gp = gas_price w url tip.1 in with_fees from nonce.0 tip.0 gp.0 gp.1

  unfoldable pub maybe_merge : List Request → MergeReport × List Request
  unfolding with_eoa
  maybe_merge log =
      let route = route_for ex q in
      if not route.ok
      then (unrouted route route.reason, log)
      else if not ex.arm.decision_on
      then (refused route (codes "LM_FLATTEN_VIA_MERGE not set (merge route disabled)"), log)
      else if is_empty ex.rpc_url
      then (refused route (codes "POLYGON_RPC_URL not set"), log)
      else with_eoa (derive_address c private_key) log
