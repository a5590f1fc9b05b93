-- ===== src/Clob/Account.antt =====
-- The constructor of ClobSubmitter in cpp/src/pmm/clob_submitter.cpp, with derive_api_creds. The
-- environment is a parameter; LM_ORDER_EXPIRY_S only makes a warning, and the warmer is a thread.
pub mod Gate
use polymarket_live_maker.Prelude.{
  Bool, Bytes, Double, List, Option, [], codes, false, if◌then◌else◌, is_empty, none, not,
  replicate, some, to_string, true, ℕ, ℤ, ◌++◌, ◌||◌, ◌∷◌,
}
use polymarket_live_maker.Env
use polymarket_live_maker.Env.{flag_eq}
use polymarket_live_maker.JsonUtil.{member, to_str}
use polymarket_live_maker.Crypto.Hex.{hex_to_bytes, to_hex}
use polymarket_live_maker.Crypto.Signer.{derive_address, sign_digest}
use polymarket_live_maker.Wire.Auth.{compute_clob_auth_digest}
use polymarket_live_maker.Chain.Rpc.{drop_slashes}
use polymarket_live_maker.Clob.Client.{
  Resp, Outside, LiveCredentials, ClobSubmitter, is_2xx, http, json_header,
}
use polymarket_live_maker.Clob.Submit.{poll_fills}

pub data AuthError : Type 0 where
  l1_sign_failed auth_parse_failed missing_key : AuthError
  auth_status : Resp → AuthError

-- A submitter, and whether it is ready.
pub record Opened (W : Type 0) : Type 0 where
  pub ready : Bool
  pub submitter : ClobSubmitter W

abbrev no_credentials : LiveCredentials
no_credentials = record {
  private_key = replicate 32 0;
  maker = [];
  signer_lc = [];
  signature_type = ℤ.pos 0;
  api_key = [];
  api_secret = [];
  api_passphrase = [];
}

abbrev pub live_flag : Bytes
live_flag = codes "PM_TRADER_LIVE"

module _ {J W : Type 0} ⦃d : Double W⦄ (o : Outside J W) where
  unfoldable pub l1_headers : LiveCredentials → Bytes → Bytes → List Bytes
  l1_headers creds sig ts =
      codes "Content-Type: application/json"
      ∷ (codes "POLY_ADDRESS: " ++ creds.signer_lc)
      ∷ (codes "POLY_SIGNATURE: " ++ to_hex sig)
      ∷ (codes "POLY_TIMESTAMP: " ++ ts)
      ∷ codes "POLY_NONCE: 0"
      ∷ []

  -- A member that is missing leaves what is there.
  abbrev text_or : J → Bytes → Bytes → Bytes
  text_or j k old = elim (member o.lib j k) [ none ↦ old | some v ↦ to_str o.lib v ]

  unfoldable pub with_api_creds : J → LiveCredentials → LiveCredentials
  with_api_creds j creds = record creds {
    api_key = text_or j (codes "apiKey") creds.api_key;
    api_secret = text_or j (codes "secret") creds.api_secret;
    api_passphrase = text_or j (codes "passphrase") creds.api_passphrase;
  }

  unfoldable pub take_creds : Option J → ClobSubmitter W → Option AuthError × ClobSubmitter W
  unfolding with_api_creds
  take_creds none s = (some auth_parse_failed, s)
  take_creds (some j) s =
      let creds = with_api_creds j s.creds in
      (
        if is_empty creds.api_key || is_empty creds.api_secret then some missing_key else none,
        record s { creds = creds },
      )

  unfoldable pub auth_reply : Resp × ClobSubmitter W → Option AuthError × ClobSubmitter W
  unfolding take_creds
  auth_reply (r, s) =
      if is_2xx r.status then take_creds (o.lib.parse r.body) s else (some (auth_status r), s)

  -- To create a key, and where that fails to derive it.
  unfoldable pub ask_creds : List Bytes → ClobSubmitter W → Option AuthError × ClobSubmitter W
  unfolding http auth_reply
  ask_creds headers s =
      let created = http o (codes "POST") (codes "/auth/api-key") headers [] s in
      let derived = http o (codes "GET") (codes "/auth/derive-api-key") headers [] created.1 in
      auth_reply (if is_2xx created.0.status then created else derived)

  unfoldable pub authorize :
      Option Bytes → Bytes → ClobSubmitter W → Option AuthError × ClobSubmitter W
  unfolding ask_creds l1_headers
  authorize none ts s = (some l1_sign_failed, s)
  authorize (some sig) ts s = ask_creds (l1_headers s.creds sig ts) s

  unfoldable pub derive_api_creds : ClobSubmitter W → Option AuthError × ClobSubmitter W
  unfolding authorize
  derive_api_creds s =
      let ts = to_string (o.now_unix s.log) in
      let digest = compute_clob_auth_digest s.creds.signer_lc ts 0 in
      authorize (sign_digest o.curve digest s.creds.private_key) ts s

  -- The end of the constructor: the trades so far are skipped.
  unfoldable pub finish_opening : Option AuthError × ClobSubmitter W → Opened W
  unfolding poll_fills
  finish_opening (some e, s) = record { ready = false; submitter = s }
  finish_opening (none, s) = record { ready = true; submitter = (poll_fills o s).1 }

  module _ (getenv : Bytes → Option Bytes) (stod : Bytes → Option (W × ℕ)) (to_int : W → ℤ) where
    unfoldable pub with_address : Bytes → Option Bytes → ClobSubmitter W → Opened W
    unfolding derive_api_creds finish_opening
    with_address key none s = record { ready = false; submitter = s }
    with_address key (some eoa) s =
        let funder = Env.str getenv (codes "POLYMARKET_FUNDER") [] in
        let signer = to_hex eoa in
        finish_opening (
          derive_api_creds (record s {
            creds = record no_credentials {
              private_key = key;
              maker = if is_empty funder then signer else funder;
              signer_lc = signer;
              signature_type =
                  Env.i getenv stod to_int (codes "POLYMARKET_SIGNATURE_TYPE") (ℤ.pos 0);
            };
          }))

    unfoldable pub with_key : Option Bytes → ClobSubmitter W → Opened W
    unfolding with_address
    with_key none s = record { ready = false; submitter = s }
    with_key (some key) s = with_address key (derive_address o.curve key) s

    unfoldable pub new_submitter : Bytes → Opened W
    unfolding with_key
    new_submitter endpoint =
        let s : ClobSubmitter W = record {
          endpoint = drop_slashes endpoint;
          creds = no_credentials;
          invert_side =
              flag_eq getenv (codes "POLYMARKET_FILL_SIDE_INVERT") (codes "1") (codes "0");
          last_trade_id = none;
          own_taker_ids = [];
          own_taker_fifo = [];
          tick_cache = [];
          neg_risk_cache = [];
          log = [];
        } in
        let pk = Env.str getenv (codes "POLYMARKET_PRIVATE_KEY") [] in
        let closed : Opened W = record { ready = false; submitter = s } in
        if not (flag_eq getenv live_flag (codes "1") (codes "0"))
        then closed
        else if is_empty pk
        then closed
        else with_key (hex_to_bytes pk 32) s
