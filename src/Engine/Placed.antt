-- ===== src/Engine/Placed.antt =====
-- What a placement does to the store, on each way.
use polymarket_live_maker.Prelude.{
  Bool, Bytes, Double, Option, [], ap, arith, false, gt, inl, inr, inr-injective, lit, lt, nil,
  none, not, not-false, refl, some, subst, suc, sym, true, ◌&&◌, ◌++◌, ◌∙◌, ◌∷◌, ◌≡◌, ◌⊎◌, ◌⊖◌,
}
use polymarket_live_maker.Engine.Store.{MakerQuote, active, Store, update_cash, create_maker_quote}
use polymarket_live_maker.Engine.Place.{
  MakerQuoteOpts, Api, EngineError, not_initialized, api_failed, no_token, valid_outcome,
  get_token_id, Market, RewardConfig, refuse, given, min_leg, with_cash, quote_input, option_checks,
  money_checks, pool_checks, market_checks, place_checks, place_write, place_maker_quote,
}

module _ {ℓ} {W : Type 0} {A : Type ℓ} where
  refuse_passed :
      (b : Bool) (e : EngineError W) (r : EngineError W ⊎ A) (x : A)
      → refuse b e r ≡ inr x
      → (b ≡ false) × (r ≡ inr x)
  unfolding refuse
  refuse_passed true e r x h = absurd (grind arith)
  refuse_passed false e r x h = (refl, h)

  given_passed {κ} :
      {B : Type κ} (o : Option B) (e : EngineError W) (k : B → EngineError W ⊎ A) (x : A)
      → given o e k ≡ inr x
      → (b : B) × (o ≡ some b) × (k b ≡ inr x)
  unfolding given
  given_passed none e k x h = absurd (grind arith)
  given_passed (some b) e k x h = (b, refl, h)

module _ {W : Type 0} ⦃d : Double W⦄ where
  -- What the tests leave: a price between 0 and 1, a spread within the pool's, legs of the least
  -- notional, and enough cash.
  unfoldable pub IsSound : W → MakerQuote W → Type 0
  IsSound cash q =
      (lt nil q.entry_mid && lt q.entry_mid (lit 1 0) ≡ true)
      × (lt (min_leg q.size q.entry_mid q.half_spread_c) (lit 1 0) ≡ false)
      × (gt q.committed_capital cash ≡ false)

  money_checks-IsSound :
      (cash : W) (q x : MakerQuote W) → money_checks cash q ≡ inr x → (q ≡ x) × IsSound cash x
  unfolding money_checks IsSound
  money_checks-IsSound cash q x h =
      let (a, h1) = refuse_passed _ _ _ x h in
      let (b, h2) = refuse_passed _ _ _ x h1 in
      let (c, h3) = refuse_passed _ _ _ x h2 in
      let same = inr-injective q x h3 in
      (same, subst (λ y. IsSound cash y) same (not-false _ a, b, c))

  option_checks-passed {κ} :
      {A : Type κ} (pool : RewardConfig W) (opts : MakerQuoteOpts W) (rest : EngineError W ⊎ A)
      (x : A)
      → option_checks pool opts rest ≡ inr x
      → rest ≡ inr x
  unfolding option_checks
  option_checks-passed pool opts rest x h =
      let (a, h1) = refuse_passed _ _ _ x h in
      let (b, h2) = refuse_passed _ _ _ x h1 in
      let (c, h3) = refuse_passed _ _ _ x h2 in
      let (e, h4) = refuse_passed _ _ _ x h3 in (refuse_passed _ _ _ x h4).1

  with_cash-passed :
      (cash : W) (r : EngineError W ⊎ MakerQuote W) (x : W × MakerQuote W)
      → with_cash cash r ≡ inr x
      → (x.0 ≡ cash) × (r ≡ inr x.1)
  unfolding with_cash
  with_cash-passed cash (inl e) x h = absurd (grind arith)
  with_cash-passed cash (inr q) x h =
      let same = inr-injective (cash, q) x h in (ap (λ p. p.0) (sym same), ap (λ p. inr p.1) same)

  -- An error that leaves the store as it was, or one more active quote with the next id, for which
  -- its capital was taken from the cash.
  unfoldable pub IsPlaced : Store W → (EngineError W ⊎ MakerQuote W) × Store W → Type 0
  IsPlaced st (inl e, after) = after ≡ st
  IsPlaced st (inr q, after) =
      (cash : W) × (st.cash ≡ some cash)
      × IsSound cash q
      × (q.status ≡ active)
      × (q.id ≡ suc st.last_id)
      × (after ≡ record {
        cash = some (cash ⊖ q.committed_capital);
        quotes = st.quotes ++ (q ∷ []);
        last_id = suc st.last_id;
      })

  module _ (api : Api W) where
    -- The quote that the tests let through, with the cash that they saw.
    Passed : W → W × MakerQuote W → Type 0
    Passed cash x = (x.0 ≡ cash) × (IsSound cash x.1 × (x.1.status ≡ active))

    pool_checks-Passed :
        (cash : W) (m : Market) (outcome : Bytes) (opts : MakerQuoteOpts W) (stamp : Bytes)
        (pool : RewardConfig W) (x : W × MakerQuote W)
        → pool_checks api cash m outcome opts stamp pool ≡ inr x
        → Passed cash x
    unfolding pool_checks quote_input Passed
    pool_checks-Passed cash m outcome opts stamp pool x h =
        let h7 = option_checks-passed pool opts _ x h in
        let (token, _, h8) = given_passed (get_token_id outcome m.tokens) no_token _ x h7 in
        let (mid, _, h9) = given_passed (api.get_midpoint token) api_failed _ x h8 in
        let (same, checked) = with_cash-passed cash _ x h9 in
        let (input, sound) = money_checks-IsSound cash _ x.1 checked in
        (same, (sound, ap (λ (q : MakerQuote W). q.status) (sym input)))

    market_checks-Passed :
        (cash : W) (m : Market) (outcome : Bytes) (opts : MakerQuoteOpts W) (stamp : Bytes)
        (x : W × MakerQuote W)
        → market_checks api cash m outcome opts stamp ≡ inr x
        → Passed cash x
    unfolding market_checks
    market_checks-Passed cash m outcome opts stamp x h =
        let (_, h3) = refuse_passed (not (valid_outcome outcome m).1) _ _ x h in
        let (_, h4) = refuse_passed m.closed _ _ x h3 in
        let (found, _, h5) =
          given_passed (api.get_reward_config m.condition_id) api_failed _ x h4 in
        let (pool, _, h6) = given_passed found _ _ x h5 in
        pool_checks-Passed cash m _ opts stamp pool x h6

    place_checks-IsSound :
        (slug outcome : Bytes) (opts : MakerQuoteOpts W) (stamp : Bytes) (st : Store W)
        (x : W × MakerQuote W)
        → place_checks api slug outcome opts stamp st ≡ inr x
        → (st.cash ≡ some x.0) × (IsSound x.0 x.1 × (x.1.status ≡ active))
    unfolding place_checks Passed
    place_checks-IsSound slug outcome opts stamp st x h =
        let (cash, has_cash, h1) = given_passed st.cash not_initialized _ x h in
        let (m, _, h2) = given_passed (api.get_market slug) api_failed _ x h1 in
        let (same, (sound, stat)) = market_checks-Passed cash m outcome opts stamp x h2 in
        (has_cash ∙ ap some (sym same), (subst (λ c. IsSound c x.1) (sym same) sound, stat))

    place_write-IsPlaced :
        (r : EngineError W ⊎ (W × MakerQuote W)) (st : Store W)
        → ((x : W × MakerQuote W)
            → r ≡ inr x
            → (st.cash ≡ some x.0) × (IsSound x.0 x.1 × (x.1.status ≡ active)))
        → IsPlaced st (place_write api r st)
    unfolding place_write create_maker_quote update_cash IsPlaced IsSound
    place_write-IsPlaced (inl e) st h = refl
    place_write-IsPlaced (inr (cash, q)) st h =
        let (has, (sound, stat)) = h (cash, q) refl in (cash, has, sound, stat, refl, rw has refl)

    -- A placement either fails and leaves the store as it was, or adds one active quote with the
    -- next id, takes its capital from the cash, and the quote has a price between 0 and 1, legs of
    -- at least the least notional, and no more capital than the cash.
    pub place_maker_quote-IsPlaced :
        (slug outcome : Bytes) (opts : MakerQuoteOpts W) (stamp : Bytes) (st : Store W)
        → IsPlaced st (place_maker_quote api slug outcome opts stamp st)
    unfolding place_maker_quote
    place_maker_quote-IsPlaced slug outcome opts stamp st =
        place_write-IsPlaced _ st (place_checks-IsSound slug outcome opts stamp st)
