-- ===== src/Engine/AccrueLive.antt =====
-- What a round of accrue_maker_rewards_live of cpp/src/pmm/engine.cpp can do to one quote, with
-- flatten_live. The reports are left out.
pub mod Rounds
pub mod Ways
pub mod Statuses
pub mod Spoken
pub mod Heard
pub mod Careful
pub mod Retired
pub mod Growth
use polymarket_live_maker.Prelude.{
  Bool, Bytes, Double, List, Option, StringSet, [], codes, contains, fabs, false, find, fmax, gt,
  if◌then◌else◌, inl, inr, is_empty, lit, lt, neg, nil, none, same_str, some, suc, true, zero, ℕ, ℤ,
  ◌&&◌, ◌+◌, ◌∷◌, ◌⊕◌, ◌⊖◌, ◌⊗◌, ◌⊘◌,
}
use polymarket_live_maker.OrderBook.{OrderBook, book_inband_qmin, maker_reward_share}
use polymarket_live_maker.OrderBook.Signals.{reward_accrual}
use polymarket_live_maker.Maker.{Order, Quotes, QuoteError, compute_two_sided_quotes_yes_no}
use polymarket_live_maker.Engine.Store.{
  MakerQuote, AccrualUpdate, Store, active_quotes, update_maker_quote_accrual,
}
use polymarket_live_maker.Engine.Place.{RewardConfig, Api, lower_case}
use polymarket_live_maker.Engine.Live.{
  Ack, Call, place_order, cancel_orders, flatten_position, Desk, action_ok, top_bid, top_ask,
}
use polymarket_live_maker.Engine.Accrue.{
  QuoteRead, BookSource, Clock, read_one, credit_maker, exit_maker_quote,
}
use polymarket_live_maker.Engine.Act.{Act, ◌>>=◌, ◌>>◌, pure, change, send, then_act}

pub record RealFill (W : Type 0) : Type 0 where
  pub side : Bytes
  pub size : W
  pub price : W

-- What the loops over the fills add up.
pub record FillSums (W : Type 0) : Type 0 where
  pub moved : W
  pub pnl : W
  pub bleed : W
  pub count : ℕ

-- The arguments of the call: the fills by token, and the re-centring.
pub record LiveInput (W : Type 0) : Type 0 where
  pub fills_by_token : List (Bytes × List (RealFill W))
  pub recenter_ticks : ℤ
  pub force_recenter : Option StringSet

-- `std::max(1, n)`.
abbrev pub at_least_one : ℤ → ℕ
at_least_one (ℤ.pos zero) = 1
at_least_one (ℤ.pos (suc n)) = suc n
at_least_one (ℤ.negsuc n) = 1

abbrev pub forces : Option StringSet → Bytes → Bool
forces none token = false
forces (some tokens) token = contains token tokens

module _ {W : Type 0} ⦃d : Double W⦄ where
  -- One fill against a price of its token.
  unfoldable pub add_fill : W → FillSums W → RealFill W → FillSums W
  add_fill price sums f =
      let sgn = if same_str (lower_case f.side) (codes "buy") then lit 1 0 else neg (lit 1 0) in
      let fp = sgn ⊗ (price ⊖ f.price) ⊗ f.size in
      record {
        moved = sums.moved ⊕ sgn ⊗ f.size;
        pnl = sums.pnl ⊕ fp;
        bleed = sums.bleed ⊕ fmax nil (neg fp);
        count = sums.count + 1;
      }

  unfoldable pub add_fills : W → List (RealFill W) → FillSums W → FillSums W
  unfolding add_fill
  add_fills price [] sums = sums
  add_fills price (f ∷ fs) sums = add_fills price fs (add_fill price sums f)

  unfoldable pub fills_at : LiveInput W → Bytes → List (RealFill W)
  fills_at input token =
      if is_empty token
      then []
      else elim (find token input.fills_by_token) [ none ↦ [] | some fs ↦ fs ]

  -- Both legs: what the first token moved from a start, then what the second moved, and the sums.
  unfoldable pub both_legs : LiveInput W → MakerQuote W → W → W → W → W × FillSums W
  unfolding add_fills fills_at
  both_legs input q mid yes_start no_start =
      let fills : List (RealFill W) = elim (find q.token_id input.fills_by_token) [
        | none ↦ []
        | some fs ↦ fs
      ] in
      let yes =
        add_fills mid fills (record { moved = yes_start; pnl = nil; bleed = nil; count = 0 }) in
      (
        yes.moved,
        add_fills (lit 1 0 ⊖ mid) (fills_at input q.complement_token_id)
            (record yes { moved = no_start }),
      )

  abbrev pub with_inventories : W → W → AccrualUpdate W → AccrualUpdate W
  with_inventories yes_inv no_inv u = record u {
    inventory = yes_inv;
    complement_inventory = no_inv;
  }

  unfoldable pub persist : MakerQuote W → AccrualUpdate W → Store W → Store W
  persist q u st = (update_maker_quote_accrual q.id u st).1

  -- The row as it was read back is closed; `none` would be a row that is not there.
  unfoldable pub close_read : Option (MakerQuote W) × Store W → W → Store W
  unfolding exit_maker_quote
  close_read (none, st) cost = st
  close_read (some q, st) cost = exit_maker_quote q cost st

  unfoldable pub retire : MakerQuote W → AccrualUpdate W → W → Store W → Store W
  unfolding close_read
  retire q u cost st =
      close_read (update_maker_quote_accrual q.id (with_inventories nil nil u) st) cost

  module _ (submit : List (Call W) → Call W → Option Ack) where
    -- `action_ok(submitter(...))`.
    unfoldable pub ask_ok : Call W → Act W Bool
    unfolding send action_ok
    ask_ok c = send submit c >>= λ a. pure (action_ok a)

    unfoldable pub cancel_both : MakerQuote W → Act W Bool
    unfolding ask_ok
    cancel_both q = do
      a ← ask_ok (cancel_orders q.token_id)
      if is_empty q.complement_token_id
          then pure a
          else (ask_ok (cancel_orders q.complement_token_id) >>= λ b. pure (b && a))

    -- No position is an answer that is fine.
    unfoldable pub flatten_live : Bytes → W → Act W Bool
    unfolding ask_ok
    flatten_live token inventory =
        let side = if gt inventory nil then codes "SELL" else codes "BUY" in
        if lt (fabs inventory) (lit 1 9)
        then pure true
        else ask_ok (flatten_position token side (fabs inventory))

    unfoldable pub flatten_complement : MakerQuote W → W → Act W Bool
    unfolding flatten_live
    flatten_complement q inventory =
        if is_empty q.complement_token_id
        then pure true
        else flatten_live q.complement_token_id inventory

    -- Cancel both legs and sell both positions; the quote ends if all of that is acknowledged, and
    -- otherwise keeps the positions for the next round.
    unfoldable pub wind_down : MakerQuote W → W → W → W → AccrualUpdate W → W → Act W (Unit {0})
    unfolding cancel_both flatten_live flatten_complement persist retire credit_maker
    wind_down q yes_inv no_inv amount u crossing = do
      cancelled ← cancel_both q
      sold_yes ← flatten_live q.token_id yes_inv
      sold_no ← flatten_complement q no_inv
      change (λ st.
          if cancelled && (sold_yes && sold_no)
          then retire q u (crossing ⊘ lit 100 0 ⊗ (fabs yes_inv ⊕ fabs no_inv))
              (credit_maker amount st)
          else persist q (with_inventories yes_inv no_inv u) (credit_maker amount st))

    -- The price left the band: only the cancels have to be acknowledged.
    unfoldable pub drift_exit : MakerQuote W → W → AccrualUpdate W → Act W (Unit {0})
    unfolding cancel_both persist retire credit_maker
    drift_exit q amount u = do
      cancelled ← cancel_both q
      change (λ st.
          if cancelled
          then retire q u nil (credit_maker amount st)
          else persist q (with_inventories q.inventory q.complement_inventory u)
              (credit_maker amount st))

    unfoldable pub place_each : List (Order W) → Act W (Unit {0})
    unfolding send
    place_each [] = pure tt
    place_each (o ∷ os) =
        let sent : Act W (Unit {0}) = send submit (place_order o) >>= λ a. place_each os in
        if is_empty o.token_id then place_each os else sent

    unfoldable pub place_quotes : Quotes W → Act W (Unit {0})
    unfolding place_each
    place_quotes (inl e) desk = (none, desk)
    place_quotes (inr (bid, ask)) desk = place_each (bid ∷ ask ∷ []) desk

    -- New legs around the price. The answers are kept in the report only.
    unfoldable pub recenter : MakerQuote W → W → OrderBook W → Act W (Unit {0})
    unfolding cancel_both place_quotes top_bid top_ask
    recenter q mid book = do
      cancelled ← cancel_both q
      place_quotes (
          compute_two_sided_quotes_yes_no mid q.half_spread_c q.size q.tick q.max_spread_c
            q.token_id q.complement_token_id (top_bid nil book.bids) (top_ask nil book.asks) nil
            nil)
