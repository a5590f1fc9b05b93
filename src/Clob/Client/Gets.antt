-- ===== src/Clob/Client/Gets.antt =====
-- The questions of the client: they only add GET requests to the log.
use polymarket_live_maker.Prelude.{
  All, All-append, Bool, Bytes, Double, List, Option, [], ap, append-nil, append_assoc, codes, none,
  refl, some, sym, ◌++◌, ◌∙◌, ◌≡◌,
}
use polymarket_live_maker.Clob.Client.{
  tick_or_ask, neg_risk_or_ask, json_header, Request, Outside, ClobSubmitter, http, ask_tick,
  fetch_tick_size, ask_neg_risk, fetch_neg_risk, fetch_marketable_price,
}

abbrev pub IsGet : Request → Type 0
IsGet r = r.method ≡ codes "GET"

-- The account stays, and the log grows by GETs.
unfoldable pub Asks : {W : Type 0} → ClobSubmitter W → ClobSubmitter W → Type 0
Asks s after =
    (after.creds ≡ s.creds) × (gets : List Request) × All IsGet gets × (after.log ≡ s.log ++ gets)

module _ {W : Type 0} where
  pub Asks-refl : (s : ClobSubmitter W) → Asks s s
  unfolding Asks
  Asks-refl s = (refl, [], tt, sym (append-nil s.log))

  pub Asks-trans : (s t u : ClobSubmitter W) → Asks s t → Asks t u → Asks s u
  unfolding Asks
  Asks-trans s t u (c, gets, g, l) (e, more, h, m) = (
    e ∙ c,
    gets ++ more,
    All-append IsGet gets more g h,
    m ∙ (ap (λ x. x ++ more) l ∙ append_assoc s.log gets more),
  )

module _ {J W : Type 0} ⦃d : Double W⦄ (o : Outside J W) where
  http-Asks :
      (path : Bytes) (headers : List Bytes) (body : Bytes) (s : ClobSubmitter W)
      → Asks s (http o (codes "GET") path headers body s).1
  unfolding http Asks
  http-Asks path headers body s = (refl, _, (refl, tt), refl)

  tick_or_ask-Asks :
      (token : Bytes) (known : Option Bytes) (s : ClobSubmitter W)
      → Asks s (tick_or_ask o token known s).1
  unfolding tick_or_ask ask_tick http Asks
  tick_or_ask-Asks token none s = http-Asks _ json_header [] s
  tick_or_ask-Asks token (some tick) s = Asks-refl s

  pub fetch_tick_size-Asks :
      (token : Bytes) (s : ClobSubmitter W) → Asks s (fetch_tick_size o token s).1
  unfolding fetch_tick_size
  fetch_tick_size-Asks token s = tick_or_ask-Asks token _ s

  neg_risk_or_ask-Asks :
      (token : Bytes) (known : Option Bool) (s : ClobSubmitter W)
      → Asks s (neg_risk_or_ask o token known s).1
  unfolding neg_risk_or_ask ask_neg_risk http Asks
  neg_risk_or_ask-Asks token none s = http-Asks _ json_header [] s
  neg_risk_or_ask-Asks token (some is_neg) s = Asks-refl s

  pub fetch_neg_risk-Asks :
      (token : Bytes) (s : ClobSubmitter W) → Asks s (fetch_neg_risk o token s).1
  unfolding fetch_neg_risk
  fetch_neg_risk-Asks token s = neg_risk_or_ask-Asks token _ s

  pub fetch_marketable_price-Asks :
      (token side : Bytes) (s : ClobSubmitter W) → Asks s (fetch_marketable_price o token side s).1
  unfolding fetch_marketable_price http Asks
  fetch_marketable_price-Asks token side s = http-Asks _ json_header [] s
