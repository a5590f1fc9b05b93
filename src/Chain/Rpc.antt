-- ===== src/Chain/Rpc.antt =====
-- cpp/src/pmm/chain/polygon_rpc.cpp: the calls of the JSON-RPC client. The transport (libcurl) and
-- the reading of the reply (the JSON library) are parameters; what is sent is kept in a log, on which
-- the replies may depend.
pub mod Quantity
use polymarket_live_maker.Prelude.{
  Bool, Bytes, List, Option, [], bit_or, codes, false, get_or, if◌then◌else◌, inl, inr, is_empty,
  none, some, true, ℕ, ◌%◌, ◌&&◌, ◌*◌, ◌++◌, ◌==◌, ◌>>=◌, ◌^◌, ◌∷◌, ◌⊎◌,
}
use polymarket_live_maker.Crypto.Hex.{hex_val, strip_zx, to_hex}

pub record RpcResult : Type 0 where
  pub ok : Bool
  pub value : Bytes
  pub http : ℕ

-- What a body that arrived holds: an error, a result, neither, or no JSON. Both texts are what
-- `dump` or the string itself gives.
pub data Reply : Type 0 where
  error_of result_of : Bytes → Reply
  neither unparsable : Reply

pub record Request : Type 0 where
  pub method : Bytes
  pub params : Bytes

-- The HTTP request that is sent, with what was sent before it: the error text of the transport or
-- the body, and the status.
pub record Wire : Type 0 where
  pub perform : List Request → Bytes → Bytes → (Bytes ⊎ Bytes) × ℕ
  pub read : Bytes → Reply
  -- `dump` of the object with the three keys `data`, `from` and `to`.
  pub dump_call : Bytes → Bytes → Bytes → Bytes

-- The loop over a C string: it ends at a zero, or at the end.
unfoldable pub hex_qty_loop : Bytes → ℕ → Option ℕ
unfolding hex_val
hex_qty_loop [] v = some v
hex_qty_loop (c ∷ cs) v =
    let shifted = v * 16 % 2 ^ 64 in
    if c == 0 then some v else (hex_val c >>= λ x. hex_qty_loop cs (bit_or shifted x))

unfoldable pub digits_at : Bytes → Option ℕ
digits_at p = if get_or p 0 0 == 0 then none else hex_qty_loop p 0

-- The test of the prefix is the one of HexToBytes.
unfoldable pub parse_hex_qty : Bytes → Option ℕ
unfolding hex_qty_loop digits_at
parse_hex_qty s = digits_at (strip_zx s)

-- The constructor takes the slashes off the end: the loop, on the reversed text.
unfoldable pub drop_slashes : Bytes → Bytes
drop_slashes [] = []
drop_slashes (c ∷ cs) =
    let rest = drop_slashes cs in if c == b'/' && is_empty rest then [] else c ∷ rest

unfoldable pub result_from : Reply → ℕ → RpcResult
result_from (error_of e) http = record { ok = false; value = e; http = http }
result_from (result_of v) http = record { ok = true; value = v; http = http }
result_from neither http = record {
  ok = false;
  value = codes "no result/error in response";
  http = http;
}
result_from unparsable http = record { ok = false; value = codes "json parse failed"; http = http }

unfoldable pub request_body : Request → Bytes
request_body r =
    codes "{\"jsonrpc\":\"2.0\",\"id\":1,\"method\":\""
    ++ (r.method ++ (codes "\",\"params\":" ++ (r.params ++ codes "}")))

unfoldable pub result_of_transport : Wire → (Bytes ⊎ Bytes) × ℕ → RpcResult
result_of_transport w (inl e, http) = record { ok = false; value = e; http = http }
result_of_transport w (inr body, http) = result_from (w.read body) http

-- `Call`, and the log after it. Without a url nothing is sent.
unfoldable pub rpc_call : Wire → Bytes → Request → List Request → RpcResult × List Request
unfolding request_body result_of_transport
rpc_call w url r log =
    if is_empty url
    then (record { ok = false; value = codes "no rpc url"; http = 0 }, log)
    else (result_of_transport w (w.perform log url (request_body r)), log ++ (r ∷ []))

-- A call whose result is a quantity.
unfoldable pub quantity : RpcResult × List Request → Option ℕ × List Request
unfolding parse_hex_qty
quantity (r, log) = (if r.ok then parse_hex_qty r.value else none, log)

abbrev pub send_request : Bytes → Request
send_request raw = record {
  method = codes "eth_sendRawTransaction";
  params = codes "[\"" ++ (to_hex raw ++ codes "\"]");
}

module _ (w : Wire) (url : Bytes) where
  unfoldable pub chain_id : List Request → Option ℕ × List Request
  unfolding quantity
  chain_id log =
      quantity (rpc_call w url (record { method = codes "eth_chainId"; params = codes "[]" }) log)

  unfoldable pub transaction_count : Bytes → List Request → Option ℕ × List Request
  unfolding quantity
  transaction_count address_hex log = quantity (
      rpc_call w url
        (record {
          method = codes "eth_getTransactionCount";
          params = codes "[\"" ++ (address_hex ++ codes "\",\"pending\"]");
        })
        log)

  unfoldable pub max_priority_fee_per_gas : List Request → Option ℕ × List Request
  unfolding quantity
  max_priority_fee_per_gas log = quantity (
      rpc_call w url (record { method = codes "eth_maxPriorityFeePerGas"; params = codes "[]" })
        log)

  unfoldable pub gas_price : List Request → Option ℕ × List Request
  unfolding quantity
  gas_price log =
      quantity (rpc_call w url (record { method = codes "eth_gasPrice"; params = codes "[]" }) log)

  unfoldable pub estimate_gas : Bytes → Bytes → Bytes → List Request → Option ℕ × List Request
  unfolding quantity
  estimate_gas from_hex to_addr call_data log = quantity (
      rpc_call w url
        (record {
          method = codes "eth_estimateGas";
          params =
              codes "["
              ++ (w.dump_call (to_hex call_data) from_hex to_addr ++ codes ",\"pending\"]");
        })
        log)

  unfoldable pub send_raw_transaction : Bytes → List Request → RpcResult × List Request
  send_raw_transaction raw log = rpc_call w url (send_request raw) log
