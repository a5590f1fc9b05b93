-- ===== src/Ws/Market/Timed.antt =====
-- What is to be written: the tokens that a message or a snapshot names, and what becomes of a token.
use polymarket_live_maker.Prelude.{
  Bool, Bytes, Double, List, Option, StringSet, [], codes, contains, false, find, if◌then◌else◌,
  is_empty, none, not, same_str, some, true, ◌&&◌, ◌>>=◌, ◌||◌, ◌∷◌, ◌≡◌, ◌⊎◌,
}
use polymarket_live_maker.JsonUtil.{JsonLib, member, member_str}
use polymarket_live_maker.Ws.Market.{MarketChannel, levels_in}

abbrev pub cached {ℓ} : {A : Type ℓ} → Option A → Bool
cached none = false
cached (some a) = true

module _ {W : Type 0} where
  -- The book of a token and its time are what they were.
  abbrev pub AreKept : MarketChannel W → MarketChannel W → Bytes → Type 0
  AreKept base ch k = (find k ch.levels ≡ find k base.levels) × (find k ch.ts ≡ find k base.ts)

  -- A book is cached, with the time given.
  abbrev pub IsWritten : W → MarketChannel W → Bytes → Type 0
  IsWritten now ch k = (cached (find k ch.levels) ≡ true) × (find k ch.ts ≡ some now)

  -- A token that is named was written, and another one is what it was.
  unfoldable pub IsTimed : W → MarketChannel W → Bytes → MarketChannel W → Bool → Type 0
  IsTimed now base k ch named =
      ((named ≡ true) × IsWritten now ch k) ⊎ ((named ≡ false) × AreKept base ch k)

  -- The books of the wanted tokens are what they were, and there is no other.
  unfoldable pub AreWanted : StringSet → MarketChannel W → MarketChannel W → Type 0
  AreWanted wanted base ch =
      (k : Bytes)
      → ((contains k wanted ≡ true) × AreKept base ch k)
        ⊎ ((contains k wanted ≡ false) × (find k ch.levels ≡ none))

-- Whether a message names a token, or it was named before.
module _ {J W : Type 0} ⦃d : Double W⦄ (lib : JsonLib J W) (k : Bytes) where
  unfoldable pub asset : J → Bytes
  asset j = member_str lib j (codes "asset_id")

  unfoldable pub named_here : J → Bool → Bool
  unfolding asset
  named_here j before = (not (is_empty (asset j)) && same_str k (asset j)) || before

  unfoldable pub named_changes : List J → Bool → Bool
  unfolding named_here
  named_changes [] before = before
  named_changes (c ∷ cs) before = named_changes cs (named_here c before)

  unfoldable pub named_event : J → Bool → Bool
  unfolding named_here named_changes
  named_event ev before =
      let kind = member_str lib ev (codes "event_type") in
      if same_str kind (codes "book")
      then named_here ev before
      else if same_str kind (codes "price_change")
      then elim (member lib ev (codes "price_changes") >>= lib.as_array) [
        | none ↦ before
        | some cs ↦ named_changes cs before
      ]
      else before

  unfoldable pub named_events : List J → Bool → Bool
  unfolding named_event
  named_events [] before = before
  named_events (ev ∷ evs) before = named_events evs (named_event ev before)

  unfoldable pub named_message : Bytes → Bool
  unfolding named_event named_events
  named_message raw = elim (lib.parse raw) [
    | none ↦ false
    | some j ↦ elim (lib.as_array j) [
      | none ↦ named_event j false
      | some evs ↦ named_events evs false
    ]
  ]

  -- A snapshot counts if it has a token and both sides.
  unfoldable pub named_snapshot : Bytes → J → Bool
  named_snapshot token book =
      let lv = levels_in lib book in
      (not (is_empty token || is_empty lv.bids || is_empty lv.asks) && same_str k token) || false
