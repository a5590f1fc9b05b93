-- ===== src/Ws/User.antt =====
-- UserChannel of cpp/src/pmm/ws.cpp: the fills of the account, each trade once.
pub mod Window
pub mod Feed
use polymarket_live_maker.Prelude.{
  Bool, Bytes, Double, List, Option, StringSet, [], codes, contains, erase, if◌then◌else◌, is_empty,
  length, ltb, none, put, same_str, some, ℕ, ◌++◌, ◌∷◌,
}
use polymarket_live_maker.JsonUtil.{JsonLib, member, member_str, member_double, to_str}
use polymarket_live_maker.Maker.Bot.{to_upper}

-- The five members of a queued object.
pub record TradeFill (W : Type 0) : Type 0 where
  pub id : Bytes
  pub token_id : Bytes
  pub side : Bytes
  pub size : W
  pub price : W

-- The `std::set`s are the maps of their members.
pub record UserChannel (W : Type 0) : Type 0 where
  pub invert : Bool
  pub queue : List (TradeFill W)
  pub seen : StringSet
  pub seen_fifo : List Bytes
  pub markets : StringSet

abbrev pub window : ℕ
window = 5000

unfoldable pub new_user_channel : {W : Type 0} → Bool → UserChannel W
new_user_channel invert = record {
  invert = invert;
  queue = [];
  seen = [];
  seen_fifo = [];
  markets = [];
}

-- The oldest id leaves both containers when they are over the bound.
unfoldable pub evict : StringSet → List Bytes → StringSet × List Bytes
evict seen [] = (seen, [])
evict seen (oldest ∷ fifo) =
    if ltb window (length (oldest ∷ fifo)) then (erase oldest seen, fifo) else (seen, oldest ∷ fifo)

-- A new id is noted; `none` for an id that is known.
unfoldable pub note_id : Bytes → StringSet → List Bytes → Option (StringSet × List Bytes)
unfolding evict
note_id tid seen fifo =
    if is_empty tid
    then some (seen, fifo)
    else if contains tid seen
    then none
    else some (evict (put tid tt seen) (fifo ++ (tid ∷ [])))

unfoldable pub invert_side : Bool → Bytes → Bytes
invert_side invert side =
    if invert then (if same_str side (codes "BUY") then codes "SELL" else codes "BUY") else side

unfoldable pub enqueue :
    {W : Type 0} → TradeFill W → Option (StringSet × List Bytes) → UserChannel W → UserChannel W
enqueue f none ch = ch
enqueue f (some (seen, fifo)) ch = record ch {
  queue = ch.queue ++ (f ∷ []);
  seen = seen;
  seen_fifo = fifo;
}

unfoldable pub poll_fills : {W : Type 0} → UserChannel W → List (TradeFill W) × UserChannel W
poll_fills ch = (ch.queue, record ch { queue = [] })

unfoldable pub set_of : List Bytes → StringSet
set_of [] = []
set_of (c ∷ ids) = let rest = set_of ids in if is_empty c then rest else put c tt rest

unfoldable pub set_markets : {W : Type 0} → List Bytes → UserChannel W → UserChannel W
unfolding set_of
set_markets condition_ids ch = record ch { markets = set_of condition_ids }

module _ {J W : Type 0} ⦃d : Double W⦄ (lib : JsonLib J W) where
  unfoldable pub fill_of : Bool → J → TradeFill W
  unfolding invert_side
  fill_of invert ev = record {
    id = member_str lib ev (codes "id");
    token_id = member_str lib ev (codes "asset_id");
    side = invert_side invert (to_upper (member_str lib ev (codes "side")));
    size = member_double lib ev (codes "size");
    price = member_double lib ev (codes "price");
  }

  -- An object whose `event_type` is there and says `trade`.
  unfoldable pub is_trade : J → Bool
  is_trade ev = same_str (member_str lib ev (codes "event_type")) (codes "trade")

  unfoldable pub handle_trade : TradeFill W → UserChannel W → UserChannel W
  unfolding note_id enqueue
  handle_trade f ch = enqueue f (note_id f.id ch.seen ch.seen_fifo) ch

  unfoldable pub handle_ev : J → UserChannel W → UserChannel W
  unfolding handle_trade fill_of is_trade
  handle_ev ev ch = if is_trade ev then handle_trade (fill_of ch.invert ev) ch else ch

  unfoldable pub handle_evs : List J → UserChannel W → UserChannel W
  handle_evs [] ch = ch
  handle_evs (ev ∷ evs) ch = handle_evs evs (handle_ev ev ch)

  unfoldable pub handle_message : Bytes → UserChannel W → UserChannel W
  unfolding handle_evs
  handle_message raw ch = elim (lib.parse raw) [
    | none ↦ ch
    | some j ↦ elim (lib.as_array j) [ some evs ↦ handle_evs evs ch | none ↦ handle_ev j ch ]
  ]
