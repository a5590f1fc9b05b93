-- ===== src/Engine/AccrueLive/Growth.antt =====
-- The rows under accrue_maker_rewards_live of cpp/src/pmm/engine.cpp, whatever the exchange answers.
use polymarket_live_maker.Prelude.{
  Bool, Double, List, Option, [], either, fabs, ge, if◌then◌else◌, lit, nil, none, some, subst, sym,
  ◌&&◌, ◌||◌, ◌∷◌, ◌⊖◌, ◌⊗◌,
}
use polymarket_live_maker.OrderBook.{OrderBook}
use polymarket_live_maker.Engine.Store.{
  MakerQuote, AccrualUpdate, Store, active_quotes, update_maker_quote_accrual,
}
use polymarket_live_maker.Engine.Place.{Api}
use polymarket_live_maker.Engine.Live.{Ack, Call, Desk}
use polymarket_live_maker.Engine.Accrue.{QuoteRead, BookSource, Clock, credit_maker}
use polymarket_live_maker.Engine.Growth.{
  Advances, Advances-refl, Advances-trans, update_accrual-Advances,
}
use polymarket_live_maker.Engine.Histories.{credit_maker-Advances, exit_maker_quote-Advances}
use polymarket_live_maker.Engine.Act.{Act, pure, then_act}
use polymarket_live_maker.Engine.AccrueLive.{
  LiveInput, at_least_one, forces, both_legs, cancel_both, flatten_live, flatten_complement,
  with_inventories, persist, close_read, retire, wind_down, drift_exit, recenter,
}
use polymarket_live_maker.Engine.AccrueLive.Rounds.{
  live_update, end_rewards, keep_quote, accrue_live_read, accrue_live_quotes, accrue_live_with,
  accrue_maker_rewards_live,
}
use polymarket_live_maker.Engine.AccrueLive.Spoken.{
  Heard, Spoken-Heard, cancel_both-Spoken, flatten_live-Spoken, flatten_complement-Spoken,
}
use polymarket_live_maker.Engine.AccrueLive.Ways.{read_ways}
use polymarket_live_maker.Engine.AccrueLive.Heard.{if_moved-Heard}

module _ {W : Type 0} ⦃d : Double W⦄ where
  close_read-Advances :
      (found : Option (MakerQuote W)) (st : Store W) (cost : W)
      → Advances st (close_read (found, st) cost)
  unfolding close_read
  close_read-Advances none st cost = Advances-refl st
  close_read-Advances (some q) st cost = exit_maker_quote-Advances q cost st

  retire-Advances :
      (q : MakerQuote W) (u : AccrualUpdate W) (cost : W) (st : Store W)
      → Advances st (retire q u cost st)
  unfolding retire
  retire-Advances q u cost st =
      let read = update_maker_quote_accrual q.id (with_inventories nil nil u) st in
      Advances-trans st read.1 _ (update_accrual-Advances q.id (with_inventories nil nil u) st)
        (close_read-Advances read.0 read.1 cost)

  persist-Advances :
      (q : MakerQuote W) (u : AccrualUpdate W) (st : Store W) → Advances st (persist q u st)
  unfolding persist
  persist-Advances q u st = update_accrual-Advances q.id u st

  paid_end-Advances :
      (z : Bool) (q : MakerQuote W) (u v : AccrualUpdate W) (cost amount : W) (st : Store W)
      → Advances st (
          if z
          then retire q u cost (credit_maker amount st)
          else persist q v (credit_maker amount st))
  paid_end-Advances z q u v cost amount st =
      let paid = credit_maker amount st in
      let more = credit_maker-Advances amount st in
      either (Advances st) z (retire q u cost paid) (persist q v paid)
        (Advances-trans st paid _ more (retire-Advances q u cost paid))
        (Advances-trans st paid _ more (persist-Advances q v paid))

  module _ (submit : List (Call W) → Call W → Option Ack) where
    Heard-Advances : (b m : Desk W) → Heard submit b m → Advances b.store m.store
    unfolding Heard
    Heard-Advances b m (kept, more, said) =
        subst (λ s. Advances b.store s) (sym kept) (Advances-refl b.store)

    -- One step after another.
    after_step :
        {A B : Type 0} (b : Desk W) (r : Option A × Desk W) (f : A → Act W B)
        → Advances b.store r.1.store
        → ((a : A) (m : Desk W) → Advances m.store (f a m).1.store)
        → Advances b.store (then_act r f).1.store
    unfolding then_act
    after_step b (none, m) f h go = h
    after_step b (some a, m) f h go = Advances-trans b.store m.store _ h (go a m)

    cancel_both-Advances :
        (q : MakerQuote W) (b : Desk W) → Advances b.store (cancel_both submit q b).1.store
    cancel_both-Advances q b =
        Heard-Advances b _ (Spoken-Heard submit b _ _ (cancel_both-Spoken submit q b))

    wind_down-Advances :
        (q : MakerQuote W) (yes_inv no_inv amount : W) (u : AccrualUpdate W) (crossing : W)
        (b : Desk W)
        → Advances b.store (wind_down submit q yes_inv no_inv amount u crossing b).1.store
    unfolding wind_down
    wind_down-Advances q yes_inv no_inv amount u crossing b =
        after_step b (cancel_both submit q b) _ (cancel_both-Advances q b) (λ x m.
          after_step m (flatten_live submit q.token_id yes_inv m) _
            (Heard-Advances m _
              (Spoken-Heard submit m _ _ (flatten_live-Spoken submit q.token_id yes_inv m)))
            (λ y n.
              after_step n (flatten_complement submit q no_inv n) _
                (Heard-Advances n _
                  (Spoken-Heard submit n _ _ (flatten_complement-Spoken submit q no_inv n)))
                (λ z k. paid_end-Advances (x && (y && z)) q u _ _ amount k.store)))

    drift_exit-Advances :
        (q : MakerQuote W) (amount : W) (u : AccrualUpdate W) (b : Desk W)
        → Advances b.store (drift_exit submit q amount u b).1.store
    unfolding drift_exit
    drift_exit-Advances q amount u b =
        after_step b (cancel_both submit q b) _ (cancel_both-Advances q b)
          (λ x m. paid_end-Advances x q u _ nil amount m.store)

    module _ (crossing : W) (clock : Clock W) (input : LiveInput W) where
      keep_quote-Advances :
          (q : MakerQuote W) (mid : W) (book : OrderBook W) (amount : W) (u : AccrualUpdate W)
          (b : Desk W)
          → Advances b.store (keep_quote submit crossing clock input q mid book amount u b).1.store
      unfolding keep_quote
      keep_quote-Advances q mid book amount u b =
          let ticks : W = lit (at_least_one input.recenter_ticks) 0 in
          let moved =
            forces input.force_recenter q.token_id
            || ge (fabs (mid ⊖ q.last_mid)) (ticks ⊗ q.tick) in
          after_step b ((if moved then recenter submit q mid book else pure tt) b) _
            (Heard-Advances b _ (if_moved-Heard submit moved q mid book b))
            (λ t m.
              Advances-trans m.store (credit_maker amount m.store) _
                (credit_maker-Advances amount m.store) (persist-Advances q _ _))

      end_rewards-Advances :
          (q : MakerQuote W) (b : Desk W)
          → Advances b.store (end_rewards submit crossing clock input q b).1.store
      unfolding end_rewards
      end_rewards-Advances q b =
          let legs = both_legs input q q.last_mid q.inventory q.complement_inventory in
          wind_down-Advances q legs.0 legs.1.moved legs.1.pnl
            (live_update clock q q.accrued_rewards legs.1 q.last_mid legs.1.pnl) crossing b

      accrue_live_read-Advances :
          (q : MakerQuote W) (r : QuoteRead W) (b : Desk W)
          → Advances b.store (accrue_live_read submit crossing clock input q r b).1.store
      accrue_live_read-Advances q r b =
          read_ways submit crossing clock input
            (λ (f : Act W (Unit {0})). Advances b.store (f b).1.store) q r (Advances-refl b.store)
            (end_rewards-Advances q b)
            (λ mid amount u. wind_down-Advances q _ _ amount u crossing b)
            (λ mid amount u c. drift_exit-Advances q amount u b)
            (λ book mid amount u. keep_quote-Advances q mid book amount u b)

      accrue_live_quotes-Advances :
          (reads : MakerQuote W → QuoteRead W) (qs : List (MakerQuote W)) (b : Desk W)
          → Advances b.store (accrue_live_quotes submit crossing clock input reads qs b).1.store
      unfolding accrue_live_quotes
      accrue_live_quotes-Advances reads [] b = Advances-refl b.store
      accrue_live_quotes-Advances reads (q ∷ qs) b =
          after_step b (accrue_live_read submit crossing clock input q (reads q) b) _
            (accrue_live_read-Advances q (reads q) b)
            (λ t m. accrue_live_quotes-Advances reads qs m)

      accrue_live_with-Advances :
          (cash : Option W) (reads : MakerQuote W → QuoteRead W) (b : Desk W)
          → Advances b.store (accrue_live_with submit crossing clock input cash reads b).1.store
      unfolding accrue_live_with
      accrue_live_with-Advances none reads b = Advances-refl b.store
      accrue_live_with-Advances (some c) reads b =
          accrue_live_quotes-Advances reads (active_quotes b.store.quotes) b

      pub accrue_maker_rewards_live-Advances :
          (api : Api W) (source : Option (BookSource W)) (b : Desk W)
          → Advances b.store
              (accrue_maker_rewards_live submit crossing clock input api source b).1.store
      unfolding accrue_maker_rewards_live
      accrue_maker_rewards_live-Advances api source b = accrue_live_with-Advances b.store.cash _ b
