-- ===== src/Ws/Market.antt =====
-- MarketChannel of cpp/src/pmm/ws.cpp: the cached books. The clock is an argument, read once for an
-- operation; the calls of the price callback are what `handle_message` returns.
pub mod Books
pub mod Runs
pub mod Timed
use polymarket_live_maker.Prelude.{
  Bool, Bytes, Double, List, Option, StringSet, [], codes, contains, erase, false, find, find_or,
  gt, if◌then◌else◌, is_empty, le, lit, lt, nil, none, not, put, same_str, some, ℕ, ◌&&◌, ◌+◌,
  ◌>>=◌, ◌||◌, ◌∷◌, ◌⊕◌, ◌⊖◌, ◌⊘◌,
}
use polymarket_live_maker.JsonUtil.{JsonLib, member, member_str, member_double}
use polymarket_live_maker.OrderBook.{OrderBook, OrderBookLevel}
use polymarket_live_maker.Maker.Bot.{to_upper}

-- `std::map<double, double>`: the levels in the order of their prices.
abbrev pub LevelMap : Type 0 → Type 0
LevelMap W = List (W × W)

pub record Levels (W : Type 0) : Type 0 where
  pub bids : LevelMap W
  pub asks : LevelMap W

pub record MarketChannel (W : Type 0) : Type 0 where
  pub levels : List (Bytes × Levels W)
  pub ts : List (Bytes × W)
  pub subs : StringSet
  pub updates : List (Bytes × ℕ)
  pub last_recv : W
  pub has_callback : Bool

abbrev no_levels : {W : Type 0} → Levels W
no_levels = record { bids = []; asks = [] }

unfoldable pub union : StringSet → StringSet → StringSet
union [] s = s
union ((k, u) ∷ t) s = put k tt (union t s)

unfoldable pub count_updates : StringSet → List (Bytes × ℕ) → List (Bytes × ℕ)
count_updates [] m = m
count_updates ((k, u) ∷ t) m = count_updates t (put k (find_or 0 k m + 1) m)

unfoldable pub token_set : List Bytes → StringSet
token_set [] = []
token_set (t ∷ tokens) = let rest = token_set tokens in if is_empty t then rest else put t tt rest

module _ {W : Type 0} ⦃d : Double W⦄ where
  -- `m[p] = s` and `m.erase(p)`.
  unfoldable pub put_level : W → W → LevelMap W → LevelMap W
  put_level p s [] = (p, s) ∷ []
  put_level p s ((q, t) ∷ m) =
      let rest = put_level p s m in
      if lt p q then (p, s) ∷ (q, t) ∷ m else if lt q p then (q, t) ∷ rest else (q, s) ∷ m

  unfoldable pub erase_level : W → LevelMap W → LevelMap W
  erase_level p [] = []
  erase_level p ((q, t) ∷ m) =
      let rest = erase_level p m in
      if lt p q then (q, t) ∷ m else if lt q p then (q, t) ∷ rest else m

  unfoldable pub set_level : W → W → LevelMap W → LevelMap W
  unfolding put_level erase_level
  set_level p s m = if le s nil then erase_level p m else put_level p s m

  unfoldable pub positive_levels : LevelMap W → List (OrderBookLevel W)
  positive_levels [] = []
  positive_levels ((p, s) ∷ m) =
      let rest = positive_levels m in
      if gt s nil then record { price = p; size = s } ∷ rest else rest

  abbrev is_level : Levels W → Bool
  is_level lv = not (is_empty lv.bids) && not (is_empty lv.asks)

  -- The book of the levels, if neither side is empty before and after the filter.
  unfoldable pub book_of : Levels W → Option (OrderBook W)
  unfolding positive_levels
  book_of lv =
      let bids = positive_levels lv.bids in
      let asks = positive_levels lv.asks in
      if is_empty lv.bids || is_empty lv.asks
      then none
      else if is_empty bids || is_empty asks
      then none
      else some (record { bids = bids; asks = asks })

  unfoldable pub get_book : Bytes → MarketChannel W → Option (OrderBook W)
  unfolding book_of
  get_book token ch = find token ch.levels >>= book_of

  abbrev last_price : W → LevelMap W → W
  last_price p [] = p
  last_price p ((q, s) ∷ m) = last_price q m

  unfoldable pub mid_of : Levels W → W
  mid_of lv = elim lv.bids [
    | [] ↦ nil
    | (b, s) ∷ bids ↦ elim lv.asks [ [] ↦ nil | (a, t) ∷ asks ↦ (last_price b bids ⊕ a) ⊘ lit 2 0 ]
  ]

  unfoldable pub get_midpoint : Bytes → MarketChannel W → W
  unfolding mid_of
  get_midpoint token ch = elim (find token ch.levels) [ none ↦ nil | some lv ↦ mid_of lv ]

  unfoldable pub fresh : W → Bytes → W → MarketChannel W → Bool
  fresh now token max_age_s ch = elim (find token ch.ts) [
    | none ↦ false
    | some t ↦ le (now ⊖ t) max_age_s
  ]

  unfoldable pub is_live : W → W → MarketChannel W → Bool
  is_live now max_silence_s ch = gt ch.last_recv nil && le (now ⊖ ch.last_recv) max_silence_s

  -- A book and its time are written together.
  unfoldable pub store : W → Bytes → Levels W → MarketChannel W → MarketChannel W
  store now token lv ch = record ch { levels = put token lv ch.levels; ts = put token now ch.ts }

  -- The books that are not wanted go, with their times.
  unfoldable pub drop_books :
      StringSet
      → List (Bytes × Levels W)
      → List (Bytes × W)
      → List (Bytes × Levels W) × List (Bytes × W)
  drop_books wanted [] ts = ([], ts)
  drop_books wanted ((k, lv) ∷ levels) ts =
      let gone = drop_books wanted levels (erase k ts) in
      let kept = drop_books wanted levels ts in
      if contains k wanted then ((k, lv) ∷ kept.0, kept.1) else gone

  unfoldable pub set_tokens : List Bytes → MarketChannel W → MarketChannel W
  unfolding token_set drop_books
  set_tokens tokens ch =
      let wanted = token_set tokens in
      let left = drop_books wanted ch.levels ch.ts in
      record ch { subs = wanted; levels = left.0; ts = left.1 }

  -- The calls of the callback: the touched tokens that are subscribed and have a price.
  unfoldable pub callbacks : StringSet → MarketChannel W → List (Bytes × W)
  unfolding get_midpoint
  callbacks [] ch = []
  callbacks ((k, u) ∷ touched) ch =
      let rest = callbacks touched ch in
      let mid = get_midpoint k ch in
      if contains k ch.subs && gt mid nil then (k, mid) ∷ rest else rest

module _ {J W : Type 0} ⦃d : Double W⦄ (lib : JsonLib J W) where
  unfoldable pub fill_levels : List J → LevelMap W → LevelMap W
  fill_levels [] m = m
  fill_levels (l ∷ ls) m =
      fill_levels ls
        (put_level (member_double lib l (codes "price")) (member_double lib l (codes "size")) m)

  unfoldable pub parse_levels : Option J → LevelMap W
  unfolding fill_levels
  parse_levels none = []
  parse_levels (some arr) = elim (lib.as_array arr) [ none ↦ [] | some ls ↦ fill_levels ls [] ]

  unfoldable pub levels_in : J → Levels W
  unfolding parse_levels
  levels_in ev = record {
    bids = parse_levels (member lib ev (codes "bids"));
    asks = parse_levels (member lib ev (codes "asks"));
  }

  -- An event gives the tokens that it touched.
  unfoldable pub on_book : W → J → MarketChannel W → StringSet × MarketChannel W
  unfolding store levels_in
  on_book now ev ch =
      let token = member_str lib ev (codes "asset_id") in
      if is_empty token then ([], ch) else ((token, tt) ∷ [], store now token (levels_in ev) ch)

  unfoldable pub change_levels : J → Levels W → Levels W
  unfolding set_level
  change_levels c lv =
      let p = member_double lib c (codes "price") in
      let s = member_double lib c (codes "size") in
      if same_str (to_upper (member_str lib c (codes "side"))) (codes "BUY")
      then record lv { bids = set_level p s lv.bids }
      else record lv { asks = set_level p s lv.asks }

  unfoldable pub apply_changes :
      W → List J → StringSet × MarketChannel W → StringSet × MarketChannel W
  unfolding change_levels store
  apply_changes now [] at = at
  apply_changes now (c ∷ cs) (touched, ch) =
      let token = member_str lib c (codes "asset_id") in
      let skipped = apply_changes now cs (touched, ch) in
      let changed = apply_changes now cs (
        put token tt touched,
        store now token (change_levels c (find_or no_levels token ch.levels)) ch,
      ) in
      if is_empty token then skipped else changed

  unfoldable pub on_price_change : W → J → MarketChannel W → StringSet × MarketChannel W
  unfolding apply_changes
  on_price_change now ev ch = elim (member lib ev (codes "price_changes") >>= lib.as_array) [
    | none ↦ ([], ch)
    | some cs ↦ apply_changes now cs ([], ch)
  ]

  unfoldable pub market_ev : W → J → StringSet × MarketChannel W → StringSet × MarketChannel W
  unfolding on_book on_price_change union
  market_ev now ev (touched, ch) =
      let kind = member_str lib ev (codes "event_type") in
      let book = on_book now ev ch in
      let change = on_price_change now ev ch in
      if same_str kind (codes "book")
      then (union book.0 touched, book.1)
      else if same_str kind (codes "price_change")
      then (union change.0 touched, change.1)
      else (touched, ch)

  unfoldable pub market_evs : W → List J → StringSet × MarketChannel W → StringSet × MarketChannel W
  market_evs now [] at = at
  market_evs now (ev ∷ evs) at = market_evs now evs (market_ev now ev at)

  -- The rest of a message: the counts, then the callbacks.
  unfoldable pub publish : StringSet × MarketChannel W → List (Bytes × W) × MarketChannel W
  unfolding count_updates callbacks
  publish (touched, ch) =
      let counted = record ch { updates = count_updates touched ch.updates } in
      (if ch.has_callback then callbacks touched counted else [], counted)

  unfoldable pub handle_market : W → Bytes → MarketChannel W → List (Bytes × W) × MarketChannel W
  unfolding market_evs publish
  handle_market now raw ch =
      let heard = record ch { last_recv = now } in
      elim (lib.parse raw) [
        | none ↦ ([], heard)
        | some j ↦ elim (lib.as_array j) [
          | some evs ↦ publish (market_evs now evs ([], heard))
          | none ↦ publish (market_ev now j ([], heard))
        ]
      ]

  unfoldable pub apply_rest_snapshot : W → Bytes → J → MarketChannel W → MarketChannel W
  unfolding levels_in store
  apply_rest_snapshot now token book ch =
      let lv = levels_in book in
      if is_empty token || is_empty lv.bids || is_empty lv.asks then ch else store now token lv ch
