-- ===== src/Clob/Orders/Sent.antt =====
-- What place sends: one order at most, and it is the order that was signed.
use polymarket_live_maker.Prelude.{
  All, Bool, Bool-cases, Bytes, Double, IsU64, List, Option, [], ap, append_assoc, arith, codes,
  false, if_false, if_true, if◌then◌else◌, inl, inr, inr-injective, none, refl, same_str,
  same_str_sound, some, subst, sym, to_string, true, ℕ, ◌++◌, ◌∙◌, ◌∷◌, ◌≡◌, ◌⊎◌,
}
use polymarket_live_maker.Crypto.Eip712.{OrderV2}
use polymarket_live_maker.Crypto.Signer.{recover_address}
use polymarket_live_maker.Maker.Bot.{to_upper}
use polymarket_live_maker.Wire.Body.{build_order_v2_body}
use polymarket_live_maker.Clob.Amounts.{OrderAmounts, get_order_amounts, round_config}
use polymarket_live_maker.Clob.Client.{
  l2_headers, is_2xx, Resp, Request, Outside, LiveCredentials, ClobSubmitter, http, signed_http,
  fetch_tick_size, fetch_neg_risk,
}
use polymarket_live_maker.Clob.Client.Gets.{
  IsGet, Asks, Asks-trans, fetch_tick_size-Asks, fetch_neg_risk-Asks,
}
use polymarket_live_maker.Clob.Orders.{
  placement_of, OrderError, Signed, Placement, make_order, wire_order, with_signature, digest_of,
  sign_order, checked, self_check, post_order, read_placement, order_type_of, send_signed, place,
}
use polymarket_live_maker.Clob.Orders.Agreement.{Agrees, fill_order-Agrees, get_order_amounts-side}

module _ {J W : Type 0} ⦃d : Double W⦄ (o : Outside J W) where
  -- A signed order for a token: its wire form agrees with it, and its signature recovers to the signer.
  unfoldable pub IsOwn :
      LiveCredentials → OrderAmounts → Bytes → Bool → Bytes → Bool → Signed → Type 0
  unfolding wire_order
  IsOwn creds amt token is_buy kind neg_risk s =
      Agrees (wire_order creds amt token is_buy kind s) s.order
      × (recover_address o.curve (digest_of o neg_risk s.order) s.signature ≡ some s.order.signer)

  -- What was sent between two states: questions, and then nothing, or the one order.
  unfoldable pub IsPlacement :
      OrderAmounts
      → Bool
      → Bytes
      → Bool
      → Bytes
      → ClobSubmitter W
      → (OrderError ⊎ Placement W) × ClobSubmitter W
      → Type 0
  unfolding IsOwn
  IsPlacement amt neg_risk token is_buy kind s (inl e, after) = Asks s after
  IsPlacement amt neg_risk token is_buy kind s (inr p, after) =
      (gets : List Request) × (post : Request) × (signed : Signed) × All IsGet gets
      × (after.log ≡ s.log ++ (gets ++ (post ∷ [])))
      × (post.method ≡ codes "POST")
      × (post.body ≡ build_order_v2_body (wire_order s.creds amt token is_buy kind signed))
      × IsOwn s.creds amt token is_buy kind neg_risk signed
      × ((p.ok ≡ false) ⊎ (is_2xx p.http ≡ true))

  placement_of-http :
      (is_buy : Bool) (r : Resp) (reply : Option J)
      → ((placement_of o is_buy r reply).ok ≡ false) ⊎ (is_2xx r.status ≡ true)
  unfolding placement_of
  placement_of-http is_buy r none = inl refl
  placement_of-http is_buy r (some j) = elim (Bool-cases (is_2xx r.status)) [
    | inl e ↦ inr e
    | inr e ↦ inl (simp e refl)
  ]

  read_placement-http :
      (is_buy : Bool) (r : Resp)
      → ((read_placement o is_buy r).ok ≡ false) ⊎ (is_2xx (read_placement o is_buy r).http ≡ true)
  unfolding read_placement placement_of
  read_placement-http is_buy r =
      subst (λ (n : ℕ). ((read_placement o is_buy r).ok ≡ false) ⊎ (is_2xx n ≡ true))
        (status (o.lib.parse r.body)) (placement_of-http is_buy r (o.lib.parse r.body))
    where
      status : (reply : Option J) → r.status ≡ (placement_of o is_buy r reply).http
      status none = refl
      status (some j) = refl

  with_signature-order :
      (ord : OrderV2) (sig : Option Bytes) (s : Signed)
      → with_signature o ord sig ≡ inr s
      → ord ≡ s.order
  unfolding with_signature
  with_signature-order ord none s h = absurd (grind arith)
  with_signature-order ord (some sig) s h = ap (λ (x : Signed). x.order) (inr-injective _ s h)

  sign_order-order :
      (creds : LiveCredentials) (neg_risk : Bool) (r : OrderError ⊎ OrderV2) (s : Signed)
      → sign_order o creds neg_risk r ≡ inr s
      → r ≡ inr s.order
  unfolding sign_order
  sign_order-order creds neg_risk (inl e) s h = absurd (grind arith)
  sign_order-order creds neg_risk (inr ord) s h = ap (λ x. inr x) (with_signature-order ord _ s h)

  checked-recovers :
      (signed : Signed) (found : Option Bytes) (s : Signed)
      → checked o signed found ≡ inr s
      → (signed ≡ s) × (found ≡ some s.order.signer)
  unfolding checked
  checked-recovers signed none s h = absurd (grind arith)
  checked-recovers signed (some a) s h = elim (Bool-cases (same_str a signed.order.signer)) [
    | inl e ↦
        let same = inr-injective signed s (sym (if_true _ _ _ e) ∙ h) in
        (
          same,
          ap some
              (same_str_sound a signed.order.signer e ∙ ap (λ (x : Signed). x.order.signer) same),
        )
    | inr e ↦ let stuck = sym (if_false _ _ _ e) ∙ h in absurd (grind arith)
  ]

  self_check-recovers :
      (neg_risk : Bool) (r : OrderError ⊎ Signed) (s : Signed)
      → self_check o neg_risk r ≡ inr s
      → (r ≡ inr s)
        × (recover_address o.curve (digest_of o neg_risk s.order) s.signature ≡ some s.order.signer)
  unfolding self_check
  self_check-recovers neg_risk (inl e) s h = absurd (grind arith)
  self_check-recovers neg_risk (inr signed) s h =
      let (same, found) = checked-recovers signed _ s h in
      (
        ap (λ x. inr x) same,
        subst
            (λ (x : Signed).
              recover_address o.curve (digest_of o neg_risk x.order) x.signature
              ≡ some s.order.signer)
            same found,
      )

  send_signed-IsPlacement :
      (amt : OrderAmounts) (token : Bytes) (is_buy neg_risk : Bool) (kind : Bytes)
      (r : OrderError ⊎ Signed) (s asked : ClobSubmitter W)
      → Asks s asked
      → ((signed : Signed)
          → r ≡ inr signed
          → IsOwn asked.creds amt token is_buy kind neg_risk signed)
      → IsPlacement amt neg_risk token is_buy kind s (send_signed o amt token is_buy kind r asked)
  unfolding send_signed IsPlacement post_order signed_http http Asks
  send_signed-IsPlacement amt token is_buy neg_risk kind (inl e) s asked asks own = asks
  send_signed-IsPlacement amt token is_buy neg_risk kind (inr signed) s asked (c, gets, g, l) own =
      let body = build_order_v2_body (wire_order asked.creds amt token is_buy kind signed) in
      let ts = to_string (o.now_unix asked.log) in
      let post : Request = record {
        method = codes "POST";
        url = asked.endpoint ++ codes "/order";
        headers = l2_headers o asked.creds (codes "POST") (codes "/order") body ts;
        body = body;
      } in
      (
        gets,
        post,
        signed,
        g,
        ap (λ x. x ++ (post ∷ [])) l ∙ append_assoc s.log gets (post ∷ []),
        refl,
        ap (λ x. build_order_v2_body (wire_order x amt token is_buy kind signed)) c,
        subst (λ x. IsOwn x amt token is_buy kind neg_risk signed) c (own signed refl),
        read_placement-http is_buy _,
      )

  self_check-IsOwn :
      (creds : LiveCredentials) (token kind : Bytes) (is_buy neg_risk : Bool) (amt : OrderAmounts)
      (seconds word : ℕ) (signed : Signed)
      → IsU64 word
      → amt.side ≡ (if is_buy then 0 else 1)
      → self_check o neg_risk
          (sign_order o creds neg_risk (make_order creds token amt seconds word))
        ≡ inr signed
      → IsOwn creds amt token is_buy kind neg_risk signed
  unfolding make_order IsOwn
  self_check-IsOwn creds token kind is_buy neg_risk amt seconds word signed small side h =
      let (made, found) = self_check-recovers neg_risk _ signed h in
      let made = sign_order-order creds neg_risk _ signed made in
      (
        fill_order-Agrees creds amt seconds word is_buy token kind signed.signature _ _ _
            signed.order small side refl refl refl made,
        found,
      )

  -- Whatever the network replies, and for a random word of 64 bits: a placement asks for what it
  -- does not know, and then either fails and sends no order, or sends exactly one, whose body is
  -- the wire form of the rounded amounts and of an order that was signed; that form agrees with the
  -- signed order in every field, and the signature over the domain of the token recovers to the
  -- signer. It counts as placed only with a status from 200 to 299.
  pub place-IsPlacement :
      ((log : List Request) → IsU64 (o.random_word log))
      → (token side : Bytes) (size price : W) (kind : Bytes) (s : ClobSubmitter W)
      → IsPlacement
          (get_order_amounts o.to_u64
            (same_str (to_upper side) (codes "BUY"))
            size
            price
            (round_config (fetch_tick_size o token s).0))
          (fetch_neg_risk o token (fetch_tick_size o token s).1).0
          token
          (same_str (to_upper side) (codes "BUY"))
          (order_type_of o kind)
          s
          (place o token side price size kind s)
  unfolding place
  place-IsPlacement words token side size price kind s =
      let tick = fetch_tick_size o token s in
      let neg = fetch_neg_risk o token tick.1 in
      let is_buy = same_str (to_upper side) (codes "BUY") in
      let rc = round_config tick.0 in
      send_signed-IsPlacement (get_order_amounts o.to_u64 is_buy size price rc) token is_buy neg.0
        (order_type_of o kind) _ s neg.1
        (Asks-trans s tick.1 neg.1 (fetch_tick_size-Asks o token s)
          (fetch_neg_risk-Asks o token tick.1))
        (λ signed h.
          self_check-IsOwn neg.1.creds token _ is_buy neg.0
            (get_order_amounts o.to_u64 is_buy size price rc) (o.now_unix neg.1.log)
            (o.random_word neg.1.log) signed (words neg.1.log)
            (get_order_amounts-side o.to_u64 is_buy size price rc) h)
