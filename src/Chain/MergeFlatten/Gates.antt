-- ===== src/Chain/MergeFlatten/Gates.antt =====
-- When a merge is sent: never but through both gates, with a url and a route, and once.
use polymarket_live_maker.Prelude.{
  Bool, Bool-cases, Bytes, List, Option, [], append-nil, codes, false, if◌then◌else◌, inl, inr,
  is_empty, none, refl, same_str, some, true, ℕ, ◌++◌, ◌∙◌, ◌∷◌, ◌≡◌, ◌⊎◌,
}
use polymarket_live_maker.Crypto.Signer.{Secp}
use polymarket_live_maker.Crypto.Hex.{to_hex}
use polymarket_live_maker.Chain.Eip1559.{SignedTx}
use polymarket_live_maker.Chain.Rpc.{
  Request, Wire, drop_slashes, transaction_count, max_priority_fee_per_gas, gas_price, estimate_gas,
  send_raw_transaction, rpc_call, quantity, send_request,
}
use polymarket_live_maker.Chain.MergeFlatten.{
  MergeQuote, MergeExecutor, MergeReport, route_for, build_and_sign, finish, with_fees, with_eoa,
  maybe_merge,
}

abbrev is_send : Request → Bool
is_send r = same_str r.method (codes "eth_sendRawTransaction")

-- The transactions that a log has sent, in order.
unfoldable pub sends : List Request → List Bytes
sends [] = []
sends (r ∷ log) = let rest = sends log in if is_send r then r.params ∷ rest else rest

sends-append : (xs ys : List Request) → sends (xs ++ ys) ≡ sends xs ++ sends ys
unfolding sends
sends-append [] ys = refl
sends-append (r ∷ xs) ys = elim (Bool-cases (is_send r)) [
  | inl e ↦ simp (e, sends-append xs ys) refl
  | inr e ↦ simp (e, sends-append xs ys) refl
]

rpc_call-read :
    (w : Wire) (url : Bytes) (r : Request) (log : List Request)
    → is_send r ≡ false
    → sends (rpc_call w url r log).1 ≡ sends log
unfolding rpc_call
rpc_call-read w url r log h = elim (Bool-cases (is_empty url)) [
  | inl e ↦ simp e refl
  | inr e ↦ simp (e, sends-append log (r ∷ [])) (unfold sends in simp (h, append-nil) refl)
]

module _ (w : Wire) (url : Bytes) (log : List Request) where
  send-cases :
      (raw : Bytes)
      → let out = send_raw_transaction w url raw log in
        ((sends out.1 ≡ sends log) × (out.0.ok ≡ false))
        ⊎ (sends out.1 ≡ sends log ++ ((send_request raw).params ∷ []))
  unfolding send_raw_transaction rpc_call
  send-cases raw = elim (Bool-cases (is_empty url)) [
    | inl e ↦ inl (simp e refl, simp e refl)
    | inr e ↦
        inr (simp (e, sends-append log (send_request raw ∷ [])) (unfold sends same_str in refl))
  ]

  transaction_count-read : (from : Bytes) → sends (transaction_count w url from log).1 ≡ sends log
  unfolding transaction_count quantity same_str
  transaction_count-read from = rpc_call-read w url _ log refl

  max_priority_fee-read : sends (max_priority_fee_per_gas w url log).1 ≡ sends log
  unfolding max_priority_fee_per_gas quantity same_str
  max_priority_fee-read = rpc_call-read w url _ log refl

  gas_price-read : sends (gas_price w url log).1 ≡ sends log
  unfolding gas_price quantity same_str
  gas_price-read = rpc_call-read w url _ log refl

  estimate_gas-read :
      (from to call_data : Bytes) → sends (estimate_gas w url from to call_data log).1 ≡ sends log
  unfolding estimate_gas quantity same_str
  estimate_gas-read from to call_data = rpc_call-read w url _ log refl

module _ (w : Wire) (c : Secp) (ex : MergeExecutor) (q : MergeQuote) (private_key : Bytes) where
  -- A transaction that the executor has built for the quote.
  pub IsBuilt : SignedTx → Type 0
  IsBuilt tx =
      (nonce : ℕ) × (priority : ℕ) × (max_fee : ℕ) × (gas : ℕ) × (build_and_sign c ex q private_key
          nonce priority max_fee gas
        ≡ some tx)

  -- Nothing was sent, and the report says so; or one transaction of the executor, behind its gates.
  pub IsGated : List Request → MergeReport × List Request → Type 0
  IsGated log out =
      ((sends out.1 ≡ sends log) × (out.0.executed ≡ false))
      ⊎ ((ex.arm.decision_on ≡ true)
          × (ex.arm.real_funds_armed ≡ true)
          × (is_empty ex.rpc_url ≡ false)
          × ((route_for ex q).ok ≡ true)
          × ((tx : SignedTx) × (IsBuilt tx)
              × (sends out.1 ≡ sends log ++ ((send_request tx.raw).params ∷ []))))

  idle-IsGated : (r : MergeReport) (log : List Request) → r.executed ≡ false → IsGated log (r, log)
  unfolding IsGated
  idle-IsGated r log h = inl (refl, h)

  module _ (routed : (route_for ex q).ok ≡ true) (on : ex.arm.decision_on ≡ true)
      (url : is_empty ex.rpc_url ≡ false) where
    finish-IsGated :
        (nonce gas max_fee : ℕ) (o : Option SignedTx) (log : List Request)
        → ((tx : SignedTx) → o ≡ some tx → IsBuilt tx)
        → IsGated log (finish w c ex q private_key nonce gas max_fee o log)
    unfolding finish IsGated
    finish-IsGated nonce gas max_fee none log made = inl (refl, refl)
    finish-IsGated nonce gas max_fee (some tx) log made =
        elim (Bool-cases ex.arm.real_funds_armed) [
          | inl e ↦ elim (send-cases w (drop_slashes ex.rpc_url) log tx.raw) [
            | inl (same, off) ↦ simp e (inl (same, off))
            | inr once ↦ simp e (inr (on, refl, url, routed, (tx, made tx refl, once)))
          ]
          | inr e ↦ simp e (inl (refl, refl))
        ]

    moved-IsGated :
        (log log' : List Request) (out : MergeReport × List Request)
        → sends log' ≡ sends log
        → IsGated log' out
        → IsGated log out
    unfolding IsGated
    moved-IsGated log log' out same h = rw⁻¹ same h

    with_fees-IsGated :
        (from : Bytes) (nonce tip gp : Option ℕ) (log : List Request)
        → IsGated log (with_fees w c ex q private_key from nonce tip gp log)
    unfolding with_fees IsBuilt
    with_fees-IsGated from none tip gp log = idle-IsGated _ log refl
    with_fees-IsGated from (some nonce) tip none log = idle-IsGated _ log refl
    with_fees-IsGated from (some nonce) tip (some gp) log =
        moved-IsGated log _ _ (estimate_gas-read w (drop_slashes ex.rpc_url) log from _ _)
          (finish-IsGated nonce _ _ _ _ (λ tx e. (nonce, _, _, _, e)))

    with_eoa-IsGated :
        (eoa : Option Bytes) (log : List Request)
        → IsGated log (with_eoa w c ex q private_key eoa log)
    unfolding with_eoa
    with_eoa-IsGated none log = idle-IsGated _ log refl
    with_eoa-IsGated (some eoa) log =
        moved-IsGated log _ _
          (gas_price-read w _ _
            ∙ max_priority_fee-read w _ _
            ∙ transaction_count-read w _ log (to_hex eoa))
          (with_fees-IsGated (to_hex eoa) _ _ _ _)

  -- Whatever the network replies, an execution either sends no transaction and reports that it was
  -- not executed, or both gates are on, a url is set, the route is found, and exactly one
  -- transaction is sent, which is one that the executor builds and signs for the quote.
  pub maybe_merge-IsGated :
      (log : List Request) → IsGated log (maybe_merge w c ex q private_key log)
  unfolding maybe_merge
  maybe_merge-IsGated log = elim (Bool-cases (route_for ex q).ok) [
    | inr r ↦ simp r (idle-IsGated _ log refl)
    | inl r ↦ elim (Bool-cases ex.arm.decision_on) [
      | inr o ↦ simp (r, o) (idle-IsGated _ log refl)
      | inl o ↦ elim (Bool-cases (is_empty ex.rpc_url)) [
        | inl u ↦ simp (r, o, u) (idle-IsGated _ log refl)
        | inr u ↦ simp (r, o, u) (with_eoa-IsGated r o u _ log)
      ]
    ]
  ]
