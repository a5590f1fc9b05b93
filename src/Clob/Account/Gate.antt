-- ===== src/Clob/Account/Gate.antt =====
-- When the constructor opens the account.
use polymarket_live_maker.Prelude.{
  Bool, Bool-cases, Bytes, Double, Option, [], arith, codes, either, either_when, false, if_true,
  inl, inr, is_empty, none, not, not-false, refl, some, true, ℕ, ℤ, ◌||◌, ◌≡◌, ◌⊎◌,
}
use polymarket_live_maker.Env
use polymarket_live_maker.Env.{flag_eq}
use polymarket_live_maker.Crypto.Hex.{hex_to_bytes, to_hex}
use polymarket_live_maker.Crypto.Signer.{derive_address}
use polymarket_live_maker.Clob.Client.{signed_http, Resp, Outside, ClobSubmitter, is_2xx, http}
use polymarket_live_maker.Clob.Submit.{poll_fills, fetch_trades_raw}
use polymarket_live_maker.Clob.Account.{
  AuthError, l1_sign_failed, auth_parse_failed, missing_key, auth_status, Opened, live_flag,
  l1_headers, with_api_creds, take_creds, auth_reply, ask_creds, authorize, derive_api_creds,
  finish_opening, with_address, with_key, new_submitter,
}

or_false : (a b : Bool) → (a || b) ≡ false → (a ≡ false) × (b ≡ false)
or_false true b h = absurd (cc)
or_false false b h = (refl, h)

module _ {J W : Type 0} ⦃d : Double W⦄ (o : Outside J W) where
  -- A ready submitter has what it signs with.
  unfoldable pub HasCreds : Bytes → Bytes → Opened W → Type 0
  HasCreds key eoa r =
      (r.submitter.creds.private_key ≡ key)
      × (r.submitter.creds.signer_lc ≡ to_hex eoa)
      × ((r.ready ≡ false)
          ⊎ ((is_empty r.submitter.creds.api_key ≡ false)
              × (is_empty r.submitter.creds.api_secret ≡ false)))

  -- The credentials of the key, with the API key unless there is an error.
  Authorized : Bytes → Bytes → Option AuthError × ClobSubmitter W → Type 0
  Authorized key eoa (e, s) =
      (s.creds.private_key ≡ key)
      × (s.creds.signer_lc ≡ eoa)
      × (((x : AuthError) × (e ≡ some x))
          ⊎ ((is_empty s.creds.api_key ≡ false) × (is_empty s.creds.api_secret ≡ false)))

  take_creds-Authorized :
      (key eoa : Bytes) (j : Option J) (s : ClobSubmitter W)
      → s.creds.private_key ≡ key
      → s.creds.signer_lc ≡ eoa
      → Authorized key eoa (take_creds o j s)
  unfolding take_creds with_api_creds Authorized
  take_creds-Authorized key eoa none s k a = (k, a, inl (auth_parse_failed, refl))
  take_creds-Authorized key eoa (some j) s k a =
      let creds = with_api_creds o j s.creds in
      elim (Bool-cases (is_empty creds.api_key || is_empty creds.api_secret)) [
        | inl e ↦ (k, a, inl (missing_key, if_true _ _ _ e))
        | inr e ↦ (k, a, inr (or_false (is_empty creds.api_key) (is_empty creds.api_secret) e))
      ]

  auth_reply-Authorized :
      (key eoa : Bytes) (x : Resp × ClobSubmitter W)
      → x.1.creds.private_key ≡ key
      → x.1.creds.signer_lc ≡ eoa
      → Authorized key eoa (auth_reply o x)
  unfolding auth_reply Authorized
  auth_reply-Authorized key eoa (r, s) k a =
      either (Authorized key eoa) (is_2xx r.status) (take_creds o (o.lib.parse r.body) s)
        (some (auth_status r), s) (take_creds-Authorized key eoa _ s k a)
        (k, a, inl (auth_status r, refl))

  authorize-Authorized :
      (key eoa : Bytes) (sig : Option Bytes) (ts : Bytes) (s : ClobSubmitter W)
      → s.creds.private_key ≡ key
      → s.creds.signer_lc ≡ eoa
      → Authorized key eoa (authorize o sig ts s)
  unfolding authorize ask_creds http Authorized
  authorize-Authorized key eoa none ts s k a = (k, a, inl (l1_sign_failed, refl))
  authorize-Authorized key eoa (some sig) ts s k a =
      let headers = l1_headers o s.creds sig ts in
      let created = http o (codes "POST") (codes "/auth/api-key") headers [] s in
      let derived = http o (codes "GET") (codes "/auth/derive-api-key") headers [] created.1 in
      either (λ x. Authorized key eoa (auth_reply o x)) (is_2xx created.0.status) created derived
        (auth_reply-Authorized key eoa created k a) (auth_reply-Authorized key eoa derived k a)

  finish_opening-HasCreds :
      (key eoa : Bytes) (x : Option AuthError × ClobSubmitter W)
      → Authorized key (to_hex eoa) x
      → HasCreds key eoa (finish_opening o x)
  unfolding finish_opening poll_fills fetch_trades_raw signed_http http HasCreds Authorized
  finish_opening-HasCreds key eoa (some e, s) (k, a, h) = (k, a, inl refl)
  finish_opening-HasCreds key eoa (none, s) (k, a, inl (e, h)) = absurd (grind arith)
  finish_opening-HasCreds key eoa (none, s) (k, a, inr (x, y)) = (k, a, inr (x, y))

  module _ (getenv : Bytes → Option Bytes) (stod : Bytes → Option (W × ℕ)) (to_int : W → ℤ) where
    -- Closed, with nothing sent; or opened with the key of the environment and its address.
    unfoldable pub IsGated : Opened W → Type 0
    unfolding HasCreds
    IsGated r =
        ((r.ready ≡ false) × (r.submitter.log ≡ []))
        ⊎ ((flag_eq getenv live_flag (codes "1") (codes "0") ≡ true)
            × (key : Bytes) × (eoa : Bytes) × (hex_to_bytes
                  (Env.str getenv (codes "POLYMARKET_PRIVATE_KEY") []) 32
                ≡ some key)
            × (derive_address o.curve key ≡ some eoa)
            × HasCreds key eoa r)

    with_address-IsGated :
        (key : Bytes) (a : Option Bytes) (s : ClobSubmitter W)
        → s.log ≡ []
        → flag_eq getenv live_flag (codes "1") (codes "0") ≡ true
        → hex_to_bytes (Env.str getenv (codes "POLYMARKET_PRIVATE_KEY") []) 32 ≡ some key
        → derive_address o.curve key ≡ a
        → IsGated (with_address o getenv stod to_int key a s)
    unfolding with_address derive_api_creds IsGated
    with_address-IsGated key none s l f k a = inl (refl, l)
    with_address-IsGated key (some eoa) s l f k a = inr (
      f,
      key,
      eoa,
      k,
      a,
      finish_opening-HasCreds key eoa _ (authorize-Authorized key (to_hex eoa) _ _ _ refl refl),
    )

    with_key-IsGated :
        (k : Option Bytes) (s : ClobSubmitter W)
        → s.log ≡ []
        → flag_eq getenv live_flag (codes "1") (codes "0") ≡ true
        → hex_to_bytes (Env.str getenv (codes "POLYMARKET_PRIVATE_KEY") []) 32 ≡ k
        → IsGated (with_key o getenv stod to_int k s)
    unfolding with_key IsGated
    with_key-IsGated none s l f k = inl (refl, l)
    with_key-IsGated (some key) s l f k = with_address-IsGated key _ s l f k refl

    -- A submitter either is not ready and has sent nothing, or PM_TRADER_LIVE is 1, the private key
    -- of the environment has 32 bytes and an address, the submitter signs with that key under that
    -- address, and if it is ready it has an API key and a secret.
    pub new_submitter-IsGated :
        (endpoint : Bytes) → IsGated (new_submitter o getenv stod to_int endpoint)
    unfolding new_submitter IsGated
    new_submitter-IsGated endpoint =
        let open_flag = flag_eq getenv live_flag (codes "1") (codes "0") in
        let pk = Env.str getenv (codes "POLYMARKET_PRIVATE_KEY") [] in
        either_when IsGated (not open_flag) _ _ (λ e. inl (refl, refl))
          (λ e.
            either IsGated (is_empty pk) _ _ (inl (refl, refl))
              (with_key-IsGated _ _ refl (not-false open_flag e) refl))
