-- ===== src/Examples/Chain.antt =====
-- The chain modules at concrete inputs.
use polymarket_live_maker.Prelude.{
  All, Bytes, List, [], arith, concat, length, length-append, map, refl, replicate, some, ℕ, ◌*◌,
  ◌++◌, ◌+◌, ◌<◌, ◌^◌, ◌∷◌, ◌≡◌,
}
use polymarket_live_maker.Examples.Crypto.{toy_secp, toy_secp-IsSecp, toy_key, toy_pad}
use polymarket_live_maker.Crypto.Signer.{sign_digest}
use polymarket_live_maker.Crypto.Words.{u256_from_u64}
use polymarket_live_maker.Crypto.Words.Laws.{length-u256_from_u64}
use polymarket_live_maker.Chain.Rlp.{encode_bytes, encode_list}
use polymarket_live_maker.Chain.Rlp.Decode.{str, nested, decode_item}
use polymarket_live_maker.Chain.Rlp.RoundTrip.{decode_item-encode_bytes, decode_item-encode_list}
use polymarket_live_maker.Chain.Eip1559.{Eip1559Tx, raw_tx, sign_tx, signed}
use polymarket_live_maker.Chain.Eip1559.Unsigned.{IsTx, decode_tx, encode_unsigned-injective}
use polymarket_live_maker.Chain.Eip1559.Signed.{signed_items, decode_tx-raw_tx, sign_tx_total}
use polymarket_live_maker.Chain.ProxyExec.{
  ProxyCall, call, proxy_selector, encode_proxy, encode_call,
}
use polymarket_live_maker.Chain.ProxyExec.Decode.{IsCall, decode_proxy, decode_proxy-encode}
use polymarket_live_maker.Chain.Ctf.{addr32, merge_selector, encode_merge_positions}
use polymarket_live_maker.Chain.Ctf.Decode.{decode_merge, decode_merge-encode}

abbrev a_tx : Eip1559Tx
a_tx = record {
  chain_id = 137;
  nonce = 4;
  max_priority_fee_per_gas = 30000000000;
  max_fee_per_gas = 90000000000;
  gas_limit = 300000;
  to = replicate 20 0xab;
  value = 0;
  call_data = 0x9e ∷ 0x72 ∷ [];
}

a_tx-IsTx : IsTx a_tx
a_tx-IsTx = record {
  chain_id = omega arith;
  nonce = omega arith;
  max_priority_fee_per_gas = omega arith;
  max_fee_per_gas = omega arith;
  gas_limit = omega arith;
  to = refl;
  value = omega arith;
  size = omega arith;
}

encode_unsigned-injective_example : a_tx ≡ a_tx
encode_unsigned-injective_example = encode_unsigned-injective a_tx a_tx a_tx-IsTx a_tx-IsTx refl

abbrev a_signature : Bytes
a_signature = toy_pad toy_key ++ (28 ∷ [])

decode_tx-raw_tx_example :
    decode_tx (raw_tx a_tx a_signature) ≡ some (signed_items a_tx a_signature)
decode_tx-raw_tx_example = decode_tx-raw_tx a_tx a_tx-IsTx a_signature

sign_tx_total_example : sign_tx toy_secp a_tx toy_key ≡ some (signed a_tx a_signature)
sign_tx_total_example =
    sign_tx_total toy_secp a_tx toy_key toy_secp-IsSecp a_signature (unfold sign_digest in refl)

abbrev two_calls : List ProxyCall
two_calls =
    record {
      type_code = call;
      to = replicate 20 1;
      value = u256_from_u64 0;
      call_data = 1 ∷ 2 ∷ 3 ∷ [];
    }
    ∷ record { type_code = call; to = replicate 20 2; value = u256_from_u64 9; call_data = [] }
    ∷ []

two_calls-IsCall : All IsCall two_calls
two_calls-IsCall = (
  record { to = refl; value = length-u256_from_u64 0; size = omega arith },
  (record { to = refl; value = length-u256_from_u64 9; size = omega arith }, tt),
)

two_calls-length : length two_calls * 32 + length (concat (map encode_call two_calls)) < 2 ^ 64
unfolding concat encode_call u256_from_u64 addr32
two_calls-length = omega (arith, length-append {0}, length-u256_from_u64)

decode_proxy-encode_example : decode_proxy (encode_proxy two_calls) ≡ (proxy_selector, two_calls)
decode_proxy-encode_example = decode_proxy-encode two_calls two_calls-IsCall two_calls-length

abbrev word : ℕ → Bytes
word n = replicate 32 n

decode_merge-encode_example :
    decode_merge
      (encode_merge_positions (replicate 20 7) (word 0) (word 5) (word 1 ∷ word 2 ∷ []) (word 3))
    ≡ record {
      selector = merge_selector;
      collateral = replicate 20 7;
      parent = word 0;
      condition = word 5;
      partition = word 1 ∷ word 2 ∷ [];
      amount = word 3;
    }
decode_merge-encode_example =
    decode_merge-encode (replicate 20 7) (word 0) (word 5) (word 1 ∷ word 2 ∷ []) (word 3)
      (refl, refl, refl, (refl, (refl, tt)), refl) (omega arith)

decode_item-encode_bytes_example :
    decode_item (encode_bytes (1 ∷ 2 ∷ []) ++ (5 ∷ [])) ≡ some (str (1 ∷ 2 ∷ []), 5 ∷ [])
decode_item-encode_bytes_example = decode_item-encode_bytes (1 ∷ 2 ∷ []) (5 ∷ []) (omega arith)

decode_item-encode_list_example :
    decode_item (encode_list ((1 ∷ []) ∷ (2 ∷ []) ∷ []) ++ (5 ∷ []))
    ≡ some (nested (1 ∷ 2 ∷ []), 5 ∷ [])
unfolding concat
decode_item-encode_list_example =
    decode_item-encode_list ((1 ∷ []) ∷ (2 ∷ []) ∷ []) (5 ∷ []) (omega arith)
