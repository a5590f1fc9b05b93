-- ===== src/Engine/AccrueLive/Careful.antt =====
-- The ways on for one quote in accrue_maker_rewards_live of cpp/src/pmm/engine.cpp: when its row ends.
use polymarket_live_maker.Prelude.{
  Bool, Double, List, Option, [], ap, append-nil, append_assoc, arith, either_when, if◌then◌else◌,
  inl, inr, nil, refl, some, subst, sym, true, ◌&&◌, ◌++◌, ◌∙◌, ◌≡◌, ◌⊎◌,
}
use polymarket_live_maker.Engine.Store.{MakerQuote, AccrualUpdate, Store}
use polymarket_live_maker.Engine.Live.{Ack, Call, Desk}
use polymarket_live_maker.Engine.Accrue.{credit_maker}
use polymarket_live_maker.Engine.AccrueLive.{
  cancel_both, flatten_live, flatten_complement, persist, retire, with_inventories, wind_down,
  drift_exit,
}
use polymarket_live_maker.Engine.AccrueLive.Statuses.{
  statuses, close, Ended, Ended-after, credit_maker-quotes, statuses-persist, retire-Ended,
}
use polymarket_live_maker.Engine.AccrueLive.Spoken.{
  cancels, AreAcked, sale, complement_sale, Spoken, Heard, Heard-trans, Spoken-Heard, Spoken-then,
  speak, cancel_both-Spoken, flatten_live-Spoken, flatten_complement-Spoken,
}

module _ {W : Type 0} ⦃d : Double W⦄ (submit : List (Call W) → Call W → Option Ack) where
  -- No row changes its status; or the rows with the quote's id are cancelled, and the exchange has
  -- acknowledged all that was said: the cancels of both tokens, and then what `S` says.
  unfoldable pub IsCareful : (List (Call W) → Type 0) → MakerQuote W → Desk W → Desk W → Type 0
  IsCareful S q b after =
      (more : List (Call W)) × (after.calls ≡ b.calls ++ more)
      × ((statuses after.store.quotes ≡ statuses b.store.quotes)
          ⊎ ((sold : List (Call W)) × (more ≡ cancels q ++ sold)
              × S sold
              × AreAcked submit b.calls more
              × (statuses after.store.quotes ≡ close q.id (statuses b.store.quotes))))

  pub kept-IsCareful :
      (S : List (Call W) → Type 0) (q : MakerQuote W) (b m : Desk W) (st : Store W)
      → Heard submit b m
      → statuses st.quotes ≡ statuses m.store.quotes
      → IsCareful S q b (record m { store = st })
  unfolding IsCareful Heard
  kept-IsCareful S q b m st (kept, more, said) same =
      (more, said, inl (same ∙ ap (λ (s : Store W). statuses s.quotes) kept))

  Heard-IsCareful :
      (S : List (Call W) → Type 0) (q : MakerQuote W) (b m : Desk W)
      → Heard submit b m
      → IsCareful S q b m
  Heard-IsCareful S q b m h = kept-IsCareful S q b m m.store h refl

  Ended-IsCareful :
      (S : List (Call W) → Type 0) (q : MakerQuote W) (b m : Desk W) (st : Store W)
      (sold : List (Call W)) (z : Bool)
      → Spoken submit b (cancels q ++ sold) (some z, m)
      → z ≡ true
      → S sold
      → Ended q.id m.store st
      → IsCareful S q b (record m { store = st })
  unfolding IsCareful Spoken Ended
  Ended-IsCareful S q b m st sold z (kept, more, said, ok) yes_z s (inl same) =
      (more, said, inl (same ∙ ap (λ (x : Store W). statuses x.quotes) kept))
  Ended-IsCareful S q b m st sold z (kept, more, said, ok) yes_z s (inr end) =
      let (all, acked) = ok (ap (λ (v : Bool). some v) yes_z) in
      let log : statuses m.store.quotes ≡ statuses b.store.quotes =
        ap (λ (x : Store W). statuses x.quotes) kept in
      (
        more,
        said,
        inr (
          sold,
          all,
          s,
          subst (λ l. AreAcked submit b.calls l) (sym all) acked,
          end ∙ ap (close q.id) log,
        ),
      )

  -- The last step of both exits.
  paid_end-IsCareful :
      (S : List (Call W) → Type 0) (q : MakerQuote W) (b m : Desk W) (sold : List (Call W))
      (z : Bool) (amount yes_inv no_inv cost : W) (u : AccrualUpdate W)
      → Spoken submit b (cancels q ++ sold) (some z, m)
      → S sold
      → IsCareful S q b (record m {
        store =
            if z
            then retire q u cost (credit_maker amount m.store)
            else persist q (with_inventories yes_inv no_inv u) (credit_maker amount m.store);
      })
  paid_end-IsCareful S q b m sold z amount yes_inv no_inv cost u h s =
      let paid = credit_maker amount m.store in
      let same : statuses paid.quotes ≡ statuses m.store.quotes =
        ap statuses (credit_maker-quotes amount m.store) in
      either_when (λ st. IsCareful S q b (record m { store = st })) z _ _
        (λ e.
          Ended-IsCareful S q b m _ sold z h e s
            (Ended-after q.id m.store paid _ same (retire-Ended q u cost paid)))
        (λ e.
          kept-IsCareful S q b m _ (Spoken-Heard submit b _ (some z, m) h)
            (statuses-persist q (with_inventories yes_inv no_inv u) paid ∙ same))

  pub drift_exit-IsCareful :
      (S : List (Call W) → Type 0) (q : MakerQuote W) (amount : W) (u : AccrualUpdate W)
      (b : Desk W)
      → S []
      → IsCareful S q b (drift_exit submit q amount u b).1
  unfolding drift_exit
  drift_exit-IsCareful S q amount u b s =
      speak submit (λ r. IsCareful S q b r.1) b (cancels q) (cancel_both submit q b) _
        (cancel_both-Spoken submit q b) (λ m h. Heard-IsCareful S q b m h)
        (λ a m h.
          paid_end-IsCareful S q b m [] a amount q.inventory q.complement_inventory nil u
            (subst (λ l. Spoken submit b l (some a, m)) (sym (append-nil (cancels q))) h) s)

  pub wind_down-IsCareful :
      (S : List (Call W) → Type 0) (q : MakerQuote W) (yes_inv no_inv amount : W)
      (u : AccrualUpdate W) (crossing : W) (b : Desk W)
      → S (sale q.token_id yes_inv ++ complement_sale q no_inv)
      → IsCareful S q b (wind_down submit q yes_inv no_inv amount u crossing b).1
  unfolding wind_down
  wind_down-IsCareful S q yes_inv no_inv amount u crossing b s =
      let one = sale q.token_id yes_inv in
      let two = complement_sale q no_inv in
      speak submit (λ r. IsCareful S q b r.1) b (cancels q) (cancel_both submit q b) _
        (cancel_both-Spoken submit q b) (λ m h. Heard-IsCareful S q b m h)
        (λ x m h.
          speak submit (λ r. IsCareful S q b r.1) m one (flatten_live submit q.token_id yes_inv m) _
            (flatten_live-Spoken submit q.token_id yes_inv m)
            (λ n g.
              Heard-IsCareful S q b n
                (Heard-trans submit b m n (Spoken-Heard submit b _ (some x, m) h) g))
            (λ y n g.
              let both =
                Spoken-then submit b m n (cancels q) one x y (x && y) (λ e. ground arith) h g in
              speak submit (λ r. IsCareful S q b r.1) n two (flatten_complement submit q no_inv n) _
                (flatten_complement-Spoken submit q no_inv n)
                (λ k f.
                  Heard-IsCareful S q b k
                    (Heard-trans submit b n k (Spoken-Heard submit b _ (some (x && y), n) both) f))
                (λ z k f.
                  paid_end-IsCareful S q b k (one ++ two) (x && (y && z)) amount yes_inv no_inv _ u
                    (subst (λ l. Spoken submit b l (some (x && (y && z)), k))
                      (append_assoc (cancels q) one two)
                      (Spoken-then submit b n k (cancels q ++ one) two (x && y) z (x && (y && z))
                        (λ e. ground arith) both f))
                    s)))
