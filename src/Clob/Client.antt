-- ===== src/Clob/Client.antt =====
-- ClobSubmitter of cpp/include/pmm/clob_submitter.hpp: its state and its requests. The transport
-- (libcurl behind the rate limiter), the clocks, the random numbers, the JSON library, the curve library
-- and HMAC are parameters; what is sent is kept in a log, on which replies and clocks may depend.
pub mod Gets
use polymarket_live_maker.Prelude.{
  Bool, Bytes, Double, List, Option, StringSet, [], codes, false, find, gt, if◌then◌else◌, leb, lit,
  ltb, neg, nil, none, put, some, to_string, ℕ, ℤ, ◌&&◌, ◌++◌, ◌>>=◌, ◌∷◌, ◌⊕◌,
}
use polymarket_live_maker.JsonUtil.{JsonLib, member, to_str, to_double, py_bool}
use polymarket_live_maker.Crypto.Signer.{Secp}
use polymarket_live_maker.Wire.Auth.{compute_l2_signature}

pub record Request : Type 0 where
  pub method : Bytes
  pub url : Bytes
  pub headers : List Bytes
  pub body : Bytes

-- The status is 0 where the transport fails.
pub record Resp : Type 0 where
  pub status : ℕ
  pub body : Bytes

pub record Outside (J W : Type 0) : Type 0 where
  pub lib : JsonLib J W
  pub curve : Secp
  pub hmac : Bytes → Bytes → Bytes
  -- The casts of a `double` to `std::uint64_t`.
  pub to_u64 : W → ℕ
  pub perform : List Request → Request → Resp
  pub now_unix : List Request → ℕ
  pub mono_now : List Request → W
  pub random_word : List Request → ℕ
  -- `dump` of an object with these members.
  pub dump_object : List (Bytes × Bytes) → Bytes

pub record LiveCredentials : Type 0 where
  pub private_key : Bytes
  pub maker : Bytes
  pub signer_lc : Bytes
  pub signature_type : ℤ
  pub api_key : Bytes
  pub api_secret : Bytes
  pub api_passphrase : Bytes

pub record ClobSubmitter (W : Type 0) : Type 0 where
  pub endpoint : Bytes
  pub creds : LiveCredentials
  pub invert_side : Bool
  pub last_trade_id : Option Bytes
  pub own_taker_ids : StringSet
  pub own_taker_fifo : List Bytes
  pub tick_cache : List (Bytes × (Bytes × W))
  pub neg_risk_cache : List (Bytes × Bool)
  pub log : List Request

abbrev pub is_2xx : ℕ → Bool
is_2xx status = leb 200 status && ltb status 300

abbrev pub json_header : List Bytes
json_header = codes "Content-Type: application/json" ∷ []

module _ {J W : Type 0} ⦃d : Double W⦄ (o : Outside J W) where
  unfoldable pub http :
      Bytes → Bytes → List Bytes → Bytes → ClobSubmitter W → Resp × ClobSubmitter W
  http method path headers body s =
      let r : Request = record {
        method = method;
        url = s.endpoint ++ path;
        headers = headers;
        body = body;
      } in
      (o.perform s.log r, record s { log = s.log ++ (r ∷ []) })

  unfoldable pub l2_headers : LiveCredentials → Bytes → Bytes → Bytes → Bytes → List Bytes
  l2_headers creds method path body ts =
      codes "Content-Type: application/json"
      ∷ (codes "POLY_ADDRESS: " ++ creds.signer_lc)
      ∷ (codes "POLY_SIGNATURE: "
          ++ compute_l2_signature o.hmac creds.api_secret ts method path body)
      ∷ (codes "POLY_TIMESTAMP: " ++ ts)
      ∷ (codes "POLY_API_KEY: " ++ creds.api_key)
      ∷ (codes "POLY_PASSPHRASE: " ++ creds.api_passphrase)
      ∷ []

  -- A call with the headers of the account, at the time now; the path that is signed has no query.
  unfoldable pub signed_http :
      Bytes → Bytes → Bytes → Bytes → ClobSubmitter W → Resp × ClobSubmitter W
  unfolding http l2_headers
  signed_http method path query body s =
      http method query (l2_headers s.creds method path body (to_string (o.now_unix s.log))) body s

  -- A member of the reply.
  unfoldable pub reply_member : Resp → Bytes → Option J
  reply_member r k = o.lib.parse r.body >>= λ j. member o.lib j k

  unfoldable pub get_tick : Bytes → Option (Bytes × W) → ClobSubmitter W → Option Bytes
  get_tick token none s = none
  get_tick token (some (tick, expiry)) s = if gt expiry (o.mono_now s.log) then some tick else none

  unfoldable pub ask_tick : Bytes → ClobSubmitter W → Bytes × ClobSubmitter W
  unfolding http reply_member
  ask_tick token s =
      let r = http (codes "GET") (codes "/tick-size?token_id=" ++ token) json_header [] s in
      let tick : Bytes = elim (reply_member r.0 (codes "minimum_tick_size")) [
        | none ↦ codes "0.01"
        | some v ↦ to_str o.lib v
      ] in
      let expiry = o.mono_now r.1.log ⊕ lit 300 0 in
      (tick, record r.1 { tick_cache = put token (tick, expiry) s.tick_cache })

  unfoldable pub tick_or_ask : Bytes → Option Bytes → ClobSubmitter W → Bytes × ClobSubmitter W
  unfolding ask_tick
  tick_or_ask token none s = ask_tick token s
  tick_or_ask token (some tick) s = (tick, s)

  unfoldable pub fetch_tick_size : Bytes → ClobSubmitter W → Bytes × ClobSubmitter W
  unfolding get_tick tick_or_ask
  fetch_tick_size token s = tick_or_ask token (get_tick token (find token s.tick_cache) s) s

  unfoldable pub ask_neg_risk : Bytes → ClobSubmitter W → Bool × ClobSubmitter W
  unfolding http reply_member
  ask_neg_risk token s =
      let r = http (codes "GET") (codes "/neg-risk?token_id=" ++ token) json_header [] s in
      let neg : Bool = elim (reply_member r.0 (codes "neg_risk")) [
        | none ↦ false
        | some v ↦ py_bool o.lib v
      ] in
      (neg, record r.1 { neg_risk_cache = put token neg s.neg_risk_cache })

  unfoldable pub neg_risk_or_ask : Bytes → Option Bool → ClobSubmitter W → Bool × ClobSubmitter W
  unfolding ask_neg_risk
  neg_risk_or_ask token none s = ask_neg_risk token s
  neg_risk_or_ask token (some is_neg) s = (is_neg, s)

  unfoldable pub fetch_neg_risk : Bytes → ClobSubmitter W → Bool × ClobSubmitter W
  unfolding neg_risk_or_ask
  fetch_neg_risk token s = neg_risk_or_ask token (find token s.neg_risk_cache) s

  unfoldable pub warm_token : Bytes → ClobSubmitter W → ClobSubmitter W
  unfolding fetch_tick_size fetch_neg_risk
  warm_token token s = (fetch_neg_risk token (fetch_tick_size token s).1).1

  unfoldable pub fetch_marketable_price :
      Bytes → Bytes → ClobSubmitter W → Option W × ClobSubmitter W
  unfolding http reply_member
  fetch_marketable_price token side s =
      let r =
        http (codes "GET") (codes "/price?token_id=" ++ (token ++ (codes "&side=" ++ side)))
          json_header [] s in
      let price : Option W = elim (reply_member r.0 (codes "price")) [
        | none ↦ none
        | some v ↦ if gt (to_double o.lib v) nil then some (to_double o.lib v) else none
      ] in
      (price, r.1)
