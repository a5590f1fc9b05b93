-- ===== src/Ws/User/Feed.antt =====
-- Any run of the channel: messages, polls and changes of the markets.
use polymarket_live_maker.Prelude.{
  Bool, Bool-cases, Bytes, Double, List, Option, Option-cases, StringSet, [], ap, append-nil,
  append_assoc, arith, find, if◌then◌else◌, inl, inr, is_empty, none, refl, some, subst, sym, ◌++◌,
  ◌∙◌, ◌∷◌, ◌≡◌,
}
use polymarket_live_maker.JsonUtil.{JsonLib}
use polymarket_live_maker.Ws.User.{
  TradeFill, UserChannel, window, new_user_channel, enqueue, note_id, poll_fills, set_markets,
  fill_of, is_trade, handle_trade, handle_ev, handle_evs, handle_message,
}
use polymarket_live_maker.Ws.User.Window.{has_id, AreDistinct, IsWindow}
use polymarket_live_maker.Ws.User.Window.History.{
  deliver, ids_after, recent, IsRecent, Holds, handle_trades, handle_trades-deliver,
}

pub data Op : Type 0 where
  message : Bytes → Op
  poll : Op
  switch_markets : List Bytes → Op

module _ {J W : Type 0} ⦃d : Double W⦄ (lib : JsonLib J W) where
  -- The trades that a list of events reports, in order.
  unfoldable pub trades_of : Bool → List J → List (TradeFill W)
  trades_of invert [] = []
  trades_of invert (ev ∷ evs) =
      let rest = trades_of invert evs in
      if is_trade lib ev then fill_of lib invert ev ∷ rest else rest

  unfoldable pub events_of : Bytes → List J
  events_of raw = elim (lib.parse raw) [
    | none ↦ []
    | some j ↦ elim (lib.as_array j) [ some evs ↦ evs | none ↦ j ∷ [] ]
  ]

  unfoldable pub reported : Bool → List Op → List (TradeFill W)
  reported invert [] = []
  reported invert (message raw ∷ ops) = trades_of invert (events_of raw) ++ reported invert ops
  reported invert (poll ∷ ops) = reported invert ops
  reported invert (switch_markets ids ∷ ops) = reported invert ops

  -- What the polls have given, one after another, and the channel at the end.
  unfoldable pub run_ops :
      List Op → List (TradeFill W) × UserChannel W → List (TradeFill W) × UserChannel W
  run_ops [] at = at
  run_ops (message raw ∷ ops) (given, ch) = run_ops ops (given, handle_message lib raw ch)
  run_ops (poll ∷ ops) (given, ch) = let p = poll_fills ch in run_ops ops (given ++ p.0, p.1)
  run_ops (switch_markets ids ∷ ops) (given, ch) = run_ops ops (given, set_markets ids ch)

  enqueue-invert :
      (f : TradeFill W) (o : Option (StringSet × List Bytes)) (ch : UserChannel W)
      → (enqueue f o ch).invert ≡ ch.invert
  unfolding enqueue
  enqueue-invert f none ch = refl
  enqueue-invert f (some noted) ch = refl

  handle_trades-invert :
      (fs : List (TradeFill W)) (ch : UserChannel W) → (handle_trades fs ch).invert ≡ ch.invert
  unfolding handle_trades
  handle_trades-invert [] ch = refl
  handle_trades-invert (f ∷ fs) ch = handle_trades-invert fs _ ∙ enqueue-invert f _ ch

  handle_evs_lem :
      (evs : List J) (ch : UserChannel W)
      → handle_evs lib evs ch ≡ handle_trades (trades_of ch.invert evs) ch
  unfolding handle_evs handle_ev trades_of handle_trades handle_trade
  handle_evs_lem [] ch = refl
  handle_evs_lem (ev ∷ evs) ch = elim (Bool-cases (is_trade lib ev)) [
    | inl e ↦
        let f = fill_of lib ch.invert ev in
        let next = enqueue f (note_id f.id ch.seen ch.seen_fifo) ch in
        simp e (
          handle_evs_lem evs next
          ∙ ap (λ b. handle_trades (trades_of b evs) next) (enqueue-invert f _ ch))
    | inr e ↦ simp e (handle_evs_lem evs ch)
  ]

  handle_message_lem :
      (raw : Bytes) (ch : UserChannel W)
      → handle_message lib raw ch ≡ handle_trades (trades_of ch.invert (events_of raw)) ch
  unfolding handle_message events_of
  handle_message_lem raw ch = elim (Option-cases (lib.parse raw)) [
    | inl e ↦ rw (e, events_of, handle_message) (unfold handle_trades trades_of in refl)
    | inr (j, e) ↦ elim (Option-cases (lib.as_array j)) [
      | inl a ↦ rw (e, a, events_of, handle_message) (handle_evs_lem (j ∷ []) ch)
      | inr (evs, a) ↦ rw (e, a, events_of, handle_message) (handle_evs_lem evs ch)
    ]
  ]

  deliver-append :
      (fs gs : List (TradeFill W)) (h : List Bytes)
      → deliver (fs ++ gs) h ≡ deliver fs h ++ deliver gs (ids_after fs h)
  unfolding deliver ids_after
  deliver-append [] gs h = refl
  deliver-append (f ∷ fs) gs h = elim (Bool-cases (is_empty f.id)) [
    | inl e ↦ simp (e, deliver-append fs gs h) refl
    | inr e ↦ elim (Bool-cases (has_id f.id (recent h))) [
      | inl k ↦ simp (e, k, deliver-append fs gs h) refl
      | inr k ↦ simp (e, k, deliver-append fs gs (h ++ (f.id ∷ []))) refl
    ]
  ]

  new-Holds : (invert : Bool) → Holds {W = W} (new_user_channel invert) []
  unfolding new_user_channel Holds IsRecent find AreDistinct has_id
  new-Holds invert = (record { same = λ k. refl; distinct = tt; small = omega arith }, refl)

  regroup :
      (g q x y : List (TradeFill W)) {z : List (TradeFill W)}
      → z ≡ x ++ y
      → (g ++ (q ++ x)) ++ y ≡ (g ++ q) ++ z
  regroup g q x y e =
      append_assoc g (q ++ x) y
      ∙ ap (λ l. g ++ l) (append_assoc q x y)
      ∙ sym (append_assoc g q (x ++ y))
      ∙ ap (λ l. (g ++ q) ++ l) (sym e)

  run_ops-deliver :
      (ops : List Op) (given : List (TradeFill W)) (ch : UserChannel W) (h : List Bytes)
      → Holds ch h
      → let end = run_ops ops (given, ch) in
        (end.0 ++ end.1.queue ≡ (given ++ ch.queue) ++ deliver (reported ch.invert ops) h)
  unfolding run_ops reported poll_fills set_markets Holds deliver
  run_ops-deliver [] given ch h r = sym (append-nil (given ++ ch.queue))
  run_ops-deliver (message raw ∷ ops) given ch h r =
      let fs = trades_of ch.invert (events_of raw) in
      let step = handle_trades-deliver fs ch h r in
      let next = handle_trades fs ch in
      let rest = run_ops-deliver ops given next (ids_after fs h) step.1 in
      let final =
        λ (c : UserChannel W). (run_ops ops (given, c)).0 ++ (run_ops ops (given, c)).1.queue in
      let more = deliver (reported ch.invert ops) (ids_after fs h) in
      ap final (handle_message_lem raw ch)
      ∙ rest
      ∙ ap (λ b. (given ++ next.queue) ++ deliver (reported b ops) (ids_after fs h))
          (handle_trades-invert fs ch)
      ∙ ap (λ q. (given ++ q) ++ more) step.0
      ∙ regroup given ch.queue (deliver fs h) more (deliver-append fs (reported ch.invert ops) h)
  run_ops-deliver (poll ∷ ops) given ch h r =
      run_ops-deliver ops (given ++ ch.queue) (record ch { queue = [] }) h r
      ∙ ap (λ x. x ++ deliver (reported ch.invert ops) h) (append-nil (given ++ ch.queue))
  run_ops-deliver (switch_markets ids ∷ ops) given ch h r =
      run_ops-deliver ops given (set_markets ids ch) h r

  -- Over any run of messages, polls and changes of the markets, what a new channel has handed out
  -- and still queues is what an observer with an unbounded memory delivers: every reported trade,
  -- in order, but those whose id is among the last 5000 ids that were let through.
  pub run_ops-new_user_channel :
      (invert : Bool) (ops : List Op)
      → let end = run_ops ops ([], new_user_channel invert) in
        end.0 ++ end.1.queue ≡ deliver (reported invert ops) []
  unfolding new_user_channel
  run_ops-new_user_channel invert ops =
      run_ops-deliver ops [] (new_user_channel invert) [] (new-Holds invert)

  run_ops-Holds :
      (ops : List Op) (given : List (TradeFill W)) (ch : UserChannel W) (h : List Bytes)
      → Holds ch h
      → (g : List Bytes) × Holds (run_ops ops (given, ch)).1 g
  unfolding run_ops poll_fills set_markets Holds
  run_ops-Holds [] given ch h r = (h, r)
  run_ops-Holds (message raw ∷ ops) given ch h r =
      let fs = trades_of ch.invert (events_of raw) in
      run_ops-Holds ops given _ _ (
        subst (λ c. Holds c (ids_after fs h)) (sym (handle_message_lem raw ch))
          (handle_trades-deliver fs ch h r).1)
  run_ops-Holds (poll ∷ ops) given ch h r =
      run_ops-Holds ops (given ++ ch.queue) (record ch { queue = [] }) h r
  run_ops-Holds (switch_markets ids ∷ ops) given ch h r =
      run_ops-Holds ops given (set_markets ids ch) h r

  -- After any run of a new channel the set of seen ids and the queue of ids hold the same ids, the
  -- queue repeats none, and it has at most 5000.
  pub run_ops-IsWindow :
      (invert : Bool) (ops : List Op)
      → let end = (run_ops ops ([], new_user_channel invert)).1 in
        IsWindow end.seen end.seen_fifo window
  unfolding Holds
  run_ops-IsWindow invert ops =
      (run_ops-Holds ops [] (new_user_channel invert) [] (new-Holds invert)).1.0
