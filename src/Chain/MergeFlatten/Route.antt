-- ===== src/Chain/MergeFlatten/Route.antt =====
-- What the call data of a route say: one merge of the quote, sent to the token contract or through
-- the proxy wallet's factory.
use polymarket_live_maker.Prelude.{
  All, Bool-cases, Bytes, IsU64, List, [], ap, arith, concat, false, inl, inr, length,
  length-append, length-replicate, length-take, map, refl, some, subst, suc, sym, true, zero, ℕ, ℤ,
  ◌%◌, ◌*◌, ◌+◌, ◌-◌, ◌<◌, ◌==◌, ◌^◌, ◌∙◌, ◌∷◌, ◌≡◌, ◌⊎◌,
}
use polymarket_live_maker.Crypto.Hex.{address_from_hex}
use polymarket_live_maker.Crypto.Words.{u256_from_u64, zero32}
use polymarket_live_maker.Crypto.Words.Laws.{length-u256_from_u64}
use polymarket_live_maker.Chain.Ctf.{
  addr32, ctf_address, merge_selector, encode_merge_positions, encode_merge_positions_binary,
}
use polymarket_live_maker.Chain.Ctf.Decode.{MergeCall, decode_merge, decode_merge-encode}
use polymarket_live_maker.Chain.ProxyExec.{
  padding, ProxyCall, call, proxy_selector, encode_call, encode_proxy_exec, proxy_wallet_factory,
}
use polymarket_live_maker.Chain.ProxyExec.Decode.{IsCall, decode_proxy, decode_proxy-encode}
use polymarket_live_maker.Chain.MergeFlatten.{
  MergeQuote, MergeExecutor, MergeRoute, route_of, route_for,
}

-- The two contracts.
abbrev pub ctf : Bytes
ctf =
    0x4D ∷ 0x97 ∷ 0xDC ∷ 0xd9 ∷ 0x7e ∷ 0xC9 ∷ 0x45 ∷ 0xf4 ∷ 0x0c ∷ 0xF6 ∷ 0x5F ∷ 0x87 ∷ 0x09 ∷ 0x7A
    ∷ 0xCe ∷ 0x5E ∷ 0xA0 ∷ 0x47 ∷ 0x60 ∷ 0x45 ∷ []

abbrev pub factory : Bytes
factory =
    0xaB ∷ 0x45 ∷ 0xc5 ∷ 0xA4 ∷ 0xB0 ∷ 0xc9 ∷ 0x41 ∷ 0xa2 ∷ 0xF2 ∷ 0x31 ∷ 0xC0 ∷ 0x4C ∷ 0x3f ∷ 0x49
    ∷ 0x18 ∷ 0x2e ∷ 0x1A ∷ 0x25 ∷ 0x40 ∷ 0x52 ∷ []

ctf_lem : address_from_hex ctf_address ≡ some ctf
unfolding address_from_hex
ctf_lem = refl

factory_lem : address_from_hex proxy_wallet_factory ≡ some factory
unfolding address_from_hex
factory_lem = refl

unfoldable pub IsQuote : MergeQuote → Type 0
IsQuote q = (length q.collateral ≡ 20) × (length q.condition_id ≡ 32) × IsU64 q.amount

-- The merge that the quote asks for, of both outcomes.
unfoldable pub merge_of : MergeQuote → MergeCall
merge_of q = record {
  selector = merge_selector;
  collateral = q.collateral;
  parent = zero32;
  condition = q.condition_id;
  partition = u256_from_u64 1 ∷ u256_from_u64 2 ∷ [];
  amount = u256_from_u64 q.amount;
}

abbrev pub inner_of : MergeQuote → Bytes
inner_of q = encode_merge_positions_binary q.collateral q.condition_id q.amount

inner_of-decoded : (q : MergeQuote) → IsQuote q → decode_merge (inner_of q) ≡ merge_of q
unfolding encode_merge_positions_binary IsQuote merge_of
inner_of-decoded q (a, b, n) =
    decode_merge-encode q.collateral zero32 q.condition_id (u256_from_u64 1 ∷ u256_from_u64 2 ∷ [])
      (u256_from_u64 q.amount)
      (
        a,
        refl,
        b,
        (length-u256_from_u64 1, (length-u256_from_u64 2, tt)),
        length-u256_from_u64 q.amount,
      )
      (omega arith)

length-inner_of : (q : MergeQuote) → IsQuote q → length (inner_of q) < 1000
unfolding encode_merge_positions_binary encode_merge_positions IsQuote addr32 concat
length-inner_of q (a, b, n) =
    simp (length-append, length-u256_from_u64, length-take, a, b) (omega arith)

-- The call of the token contract that the proxy wallet is asked to make.
unfoldable pub proxied : MergeQuote → List ProxyCall
proxied q = record { type_code = call; to = ctf; value = zero32; call_data = inner_of q } ∷ []

proxied-IsCall : (q : MergeQuote) → IsQuote q → All IsCall (proxied q)
unfolding proxied
proxied-IsCall q h =
    let size = length-inner_of q h in (record { to = refl; value = refl; size = omega arith }, tt)

length-padding : (n : ℕ) → length (padding n) < 33
unfolding padding
length-padding n = elim (Bool-cases (n % 32 == 0)) [
  | inl e ↦ rw e (omega arith)
  | inr e ↦ rw e (omega (arith, length-replicate {A = ℕ} (32 - n % 32) 0))
]

length-proxied :
    (q : MergeQuote)
    → IsQuote q
    → length (proxied q) * 32 + length (concat (map encode_call (proxied q))) < 2 ^ 64
unfolding proxied concat encode_call addr32
length-proxied q h =
    let size = length-inner_of q h in
    let pad = length-padding (length (inner_of q)) in
    simp (length-append, length-u256_from_u64) (omega arith)

-- With the signature type 0 the call data are the merge of the quote for the token contract itself,
-- with 1 they are wrapped for the factory.
pub IsMergeRoute : ℤ → MergeQuote → MergeRoute → Type 0
IsMergeRoute t q r =
    ((t ≡ ℤ.pos 0) × (r.to ≡ ctf) × (r.via_proxy ≡ false) × (decode_merge r.call_data ≡ merge_of q))
    ⊎ ((t ≡ ℤ.pos 1)
        × (r.to ≡ factory)
        × (r.via_proxy ≡ true)
        × (decode_proxy r.call_data ≡ (proxy_selector, proxied q))
        × (decode_merge (inner_of q) ≡ merge_of q))

route_of-IsMergeRoute :
    (t : ℤ) (q : MergeQuote)
    → IsQuote q
    → (route_of t (inner_of q) (some ctf) (some factory)).ok ≡ true
    → IsMergeRoute t q (route_of t (inner_of q) (some ctf) (some factory))
unfolding route_of IsMergeRoute encode_proxy_exec proxied
route_of-IsMergeRoute (ℤ.pos zero) q h ok = inl (refl, refl, refl, inner_of-decoded q h)
route_of-IsMergeRoute (ℤ.pos (suc zero)) q h ok = inr (
  refl,
  refl,
  refl,
  decode_proxy-encode (proxied q) (proxied-IsCall q h) (length-proxied q h),
  inner_of-decoded q h,
)
route_of-IsMergeRoute (ℤ.pos (suc (suc n))) q h ok = absurd (grind arith)
route_of-IsMergeRoute (ℤ.negsuc n) q h ok = absurd (grind arith)

route_for_lem :
    (ex : MergeExecutor) (q : MergeQuote)
    → route_for ex q ≡ route_of ex.sig_type (inner_of q) (some ctf) (some factory)
unfolding route_for
route_for_lem ex q = rw (ctf_lem, factory_lem) refl

-- A route that is found for a quote with the widths of its types goes, with the signature type 0,
-- to the token contract with call data that decode to the merge of the quote, or, with the
-- signature type 1, to the factory with call data that decode to one call of the token contract
-- with the same merge.
pub route_for-IsMergeRoute :
    (ex : MergeExecutor) (q : MergeQuote)
    → IsQuote q
    → (route_for ex q).ok ≡ true
    → IsMergeRoute ex.sig_type q (route_for ex q)
route_for-IsMergeRoute ex q h ok =
    let same = route_for_lem ex q in
    subst (IsMergeRoute ex.sig_type q) (sym same)
      (route_of-IsMergeRoute ex.sig_type q h (ap (λ r. r.ok) (sym same) ∙ ok))
