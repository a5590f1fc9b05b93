-- ===== src/Ws/Market/Runs.antt =====
-- What an operation does to the cached books and their times: messages, snapshots, subscriptions.
use polymarket_live_maker.Prelude.{
  Bool, Bool-cases, Bytes, Double, List, Option-cases, StringSet, [], ap, codes, contains, false,
  find-put, if_false, if_true, inl, inr, is_empty, none, refl, same_str, some, ◌>>=◌, ◌||◌, ◌∙◌,
  ◌∷◌,
}
use polymarket_live_maker.JsonUtil.{JsonLib, member, member_str}
use polymarket_live_maker.Ws.Market.{
  Levels, MarketChannel, token_set, set_tokens, store, on_book, apply_changes, on_price_change,
  market_ev, market_evs, publish, handle_market, apply_rest_snapshot, levels_in,
}
use polymarket_live_maker.Ws.Market.Books.{drop_books-find, drop_books-ts}
use polymarket_live_maker.Ws.Market.Timed.{
  cached, IsTimed, AreWanted, asset, named_here, named_changes, named_event, named_events,
  named_message, named_snapshot,
}

-- What is done to a channel, with the time of it.
pub data MarketOp (J W : Type 0) : Type 0 where
  frame : W → Bytes → MarketOp J W
  snapshot : W → Bytes → J → MarketOp J W
  subscribe : List Bytes → MarketOp J W

module _ {W : Type 0} ⦃d : Double W⦄ where
  set_tokens-AreWanted :
      (tokens : List Bytes) (ch : MarketChannel W)
      → AreWanted (token_set tokens) ch (set_tokens tokens ch)
  unfolding set_tokens AreWanted
  set_tokens-AreWanted tokens ch k =
      let wanted = token_set tokens in
      let look = drop_books-find wanted ch.levels ch.ts k in
      elim (Bool-cases (contains k wanted)) [
        | inl e ↦ inl (e, (look ∙ if_true _ _ _ e, drop_books-ts wanted ch.levels ch.ts k e))
        | inr e ↦ inr (e, look ∙ if_false _ _ _ e)
      ]

module _ {J W : Type 0} ⦃d : Double W⦄ (lib : JsonLib J W) (k : Bytes) where
  module _ (now : W) (base : MarketChannel W) where
    store-IsTimed :
        (token : Bytes) (lv : Levels W) (ch : MarketChannel W) (b : Bool)
        → IsTimed now base k ch b
        → IsTimed now base k (store now token lv ch) (same_str k token || b)
    unfolding store IsTimed
    store-IsTimed token lv ch b h = elim (Bool-cases (same_str k token)) [
      | inl e ↦
          let there = find-put token k lv ch.levels ∙ if_true _ _ _ e in
          inl (ap (λ x. x || b) e, (ap cached there, find-put token k now ch.ts ∙ if_true _ _ _ e))
      | inr e ↦
          let there = find-put token k lv ch.levels ∙ if_false _ _ _ e in
          let time = find-put token k now ch.ts ∙ if_false _ _ _ e in
          elim h [
            | inl (n, (a, c)) ↦ inl (ap (λ x. x || b) e ∙ n, (ap cached there ∙ a, time ∙ c))
            | inr (n, (a, c)) ↦ inr (ap (λ x. x || b) e ∙ n, (there ∙ a, time ∙ c))
          ]
    ]

    After : StringSet × MarketChannel W → Bool → Type 0
    After at b = IsTimed now base k at.1 b

    after :
        (touched : StringSet) (ch : MarketChannel W) (b : Bool)
        → IsTimed now base k ch b
        → After (touched, ch) b
    unfolding After
    after touched ch b h = h

    timed : (at : StringSet × MarketChannel W) (b : Bool) → After at b → IsTimed now base k at.1 b
    unfolding After
    timed at b h = h

    on_book-IsTimed :
        (ev : J) (ch : MarketChannel W) (b : Bool)
        → IsTimed now base k ch b
        → After (on_book lib now ev ch) (named_here lib k ev b)
    unfolding on_book named_here asset
    on_book-IsTimed ev ch b h =
        let token = member_str lib ev (codes "asset_id") in
        let stored = store now token (levels_in lib ev) ch in
        elim (Bool-cases (is_empty token)) [
          | inl e ↦ simp e (after [] ch b h)
          | inr e ↦ simp e (after _ stored _ (store-IsTimed token (levels_in lib ev) ch b h))
        ]

    apply_changes-IsTimed :
        (cs : List J) (touched : StringSet) (ch : MarketChannel W) (b : Bool)
        → IsTimed now base k ch b
        → After (apply_changes lib now cs (touched, ch)) (named_changes lib k cs b)
    unfolding apply_changes named_changes named_here asset
    apply_changes-IsTimed [] touched ch b h = after touched ch b h
    apply_changes-IsTimed (c ∷ cs) touched ch b h =
        elim (Bool-cases (is_empty (member_str lib c (codes "asset_id")))) [
          | inl e ↦ simp e (apply_changes-IsTimed cs touched ch b h)
          | inr e ↦ simp e (apply_changes-IsTimed cs _ _ _ (store-IsTimed _ _ ch b h))
        ]

    on_price_change-IsTimed :
        (ev : J) (ch : MarketChannel W) (b : Bool)
        → IsTimed now base k ch b
        → After
            (on_price_change lib now ev ch)
            (elim (member lib ev (codes "price_changes") >>= lib.as_array) [
              | none ↦ b
              | some cs ↦ named_changes lib k cs b
            ])
    unfolding on_price_change
    on_price_change-IsTimed ev ch b h =
        elim (Option-cases (member lib ev (codes "price_changes") >>= lib.as_array)) [
          | inl e ↦ rw (on_price_change, e) (after _ ch b h)
          | inr (cs, e) ↦ rw (on_price_change, e) (apply_changes-IsTimed cs [] ch b h)
        ]

    market_ev-IsTimed :
        (ev : J) (touched : StringSet) (ch : MarketChannel W) (b : Bool)
        → IsTimed now base k ch b
        → After (market_ev lib now ev (touched, ch)) (named_event lib k ev b)
    unfolding market_ev named_event
    market_ev-IsTimed ev touched ch b h =
        let kind = member_str lib ev (codes "event_type") in
        let book = on_book lib now ev ch in
        let change = on_price_change lib now ev ch in
        elim (Bool-cases (same_str kind (codes "book"))) [
          | inl e ↦ simp e (after _ book.1 _ (timed book _ (on_book-IsTimed ev ch b h)))
          | inr e ↦ elim (Bool-cases (same_str kind (codes "price_change"))) [
            | inl f ↦
                simp (e, f)
                  (after _ change.1 _ (timed change _ (on_price_change-IsTimed ev ch b h)))
            | inr f ↦ simp (e, f) (after touched ch b h)
          ]
        ]

    market_evs-IsTimed :
        (evs : List J) (at : StringSet × MarketChannel W) (b : Bool)
        → After at b
        → After (market_evs lib now evs at) (named_events lib k evs b)
    unfolding market_evs named_events
    market_evs-IsTimed [] at b h = h
    market_evs-IsTimed (ev ∷ evs) (touched, ch) b h =
        market_evs-IsTimed evs _ _ (market_ev-IsTimed ev touched ch b (timed (touched, ch) b h))

    publish-IsTimed :
        (at : StringSet × MarketChannel W) (b : Bool)
        → After at b
        → IsTimed now base k (publish lib at).1 b
    unfolding publish IsTimed
    publish-IsTimed (touched, ch) b h = timed (touched, ch) b h

  untouched : (now : W) (ch : MarketChannel W) → IsTimed now ch k ch false
  unfolding IsTimed
  untouched now ch = inr (refl, (refl, refl))

  heard-IsTimed :
      (now : W) (ch : MarketChannel W) → IsTimed now ch k (record ch { last_recv = now }) false
  unfolding IsTimed
  heard-IsTimed now ch = inr (refl, (refl, refl))

  handle_market-IsTimed :
      (now : W) (raw : Bytes) (ch : MarketChannel W)
      → IsTimed now ch k (handle_market lib now raw ch).1 (named_message lib k raw)
  unfolding handle_market named_message
  handle_market-IsTimed now raw ch =
      let heard : MarketChannel W = record ch { last_recv = now } in
      let start = heard-IsTimed now ch in
      elim (Option-cases (lib.parse raw)) [
        | inl e ↦ rw (handle_market, named_message, e) start
        | inr (j, e) ↦ elim (Option-cases (lib.as_array j)) [
          | inl a ↦
              rw (handle_market, named_message, e, a)
                (publish-IsTimed now ch _ _ (market_ev-IsTimed now ch j [] heard false start))
          | inr (evs, a) ↦
              rw (handle_market, named_message, e, a)
                (publish-IsTimed now ch _ _ (
                  market_evs-IsTimed now ch evs ([], heard) false
                    (after now ch [] heard false start)))
        ]
      ]

  snapshot-IsTimed :
      (now : W) (token : Bytes) (book : J) (ch : MarketChannel W)
      → IsTimed now ch k
          (apply_rest_snapshot lib now token book ch)
          (named_snapshot lib k token book)
  unfolding apply_rest_snapshot named_snapshot
  snapshot-IsTimed now token book ch =
      let lv = levels_in lib book in
      let start = untouched now ch in
      elim (Bool-cases (is_empty token || is_empty lv.bids || is_empty lv.asks)) [
        | inl e ↦ simp e start
        | inr e ↦ simp e (store-IsTimed now ch token lv ch false start)
      ]

module _ {J W : Type 0} ⦃d : Double W⦄ (lib : JsonLib J W) where
  unfoldable pub market_op : MarketOp J W → MarketChannel W → MarketChannel W
  unfolding handle_market apply_rest_snapshot set_tokens
  market_op (frame now raw) ch = (handle_market lib now raw ch).1
  market_op (snapshot now token book) ch = apply_rest_snapshot lib now token book ch
  market_op (subscribe tokens) ch = set_tokens tokens ch

  -- What an operation leaves of the books and their times.
  unfoldable pub IsTimedBy : MarketOp J W → MarketChannel W → MarketChannel W → Type 0
  IsTimedBy (frame now raw) base ch = (k : Bytes) → IsTimed now base k ch (named_message lib k raw)
  IsTimedBy (snapshot now token book) base ch =
      (k : Bytes) → IsTimed now base k ch (named_snapshot lib k token book)
  IsTimedBy (subscribe tokens) base ch = AreWanted (token_set tokens) base ch

  -- After a message at a time, each token that the message names, in an event of a book or in a
  -- change of prices, has a cached book with that time, and the book and the time of any other
  -- token are what they were. After a snapshot the same holds, where only its token is named, and
  -- only if it is not empty and both sides have levels. After a subscription the books of the
  -- wanted tokens and their times are what they were, and no other book is cached.
  pub market_op-IsTimedBy :
      (op : MarketOp J W) (ch : MarketChannel W) → IsTimedBy op ch (market_op op ch)
  unfolding market_op IsTimedBy
  market_op-IsTimedBy (frame now raw) ch = λ k. handle_market-IsTimed lib k now raw ch
  market_op-IsTimedBy (snapshot now token book) ch = λ k. snapshot-IsTimed lib k now token book ch
  market_op-IsTimedBy (subscribe tokens) ch = set_tokens-AreWanted tokens ch
