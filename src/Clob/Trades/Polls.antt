-- ===== src/Clob/Trades/Polls.antt =====
-- Polls one after another: each trade above the first cursor is handed out once.
use polymarket_live_maker.Prelude.{
  All, Bool, Bytes, Double, List, Option, StringSet, [], false, is_empty, refl, same_str,
  same_str_refl, some, true, ◌++◌, ◌∷◌, ◌≡◌,
}
use polymarket_live_maker.JsonUtil.{JsonLib}
use polymarket_live_maker.Clob.Trades.{ClobFill, row_id, row_fills, extract_rows, extract_new_fills}

-- A reply: the rows that are new, behind them the newest row of the reply before and older ones; and
-- the orders that took, at that time.
pub record Page (J : Type 0) : Type 0 where
  pub reply : J
  pub batch : List J
  pub older : List J
  pub own : StringSet

module _ {J W : Type 0} ⦃d : Double W⦄ (lib : JsonLib J W) (invert : Bool) (maker_lc : Bytes) where
  unfoldable pub fills_of : StringSet → List J → List (ClobFill W)
  fills_of own [] = []
  fills_of own (t ∷ ts) = row_fills lib own invert maker_lc t ++ fills_of own ts

  abbrev pub newest : J → List J → J
  newest h [] = h
  newest h (t ∷ ts) = t

  -- The rows are those of a growing list of trades: each new row has an id, which is not the one of
  -- the newest row before.
  unfoldable pub AreHistory : J → List (Page J) → Type 0
  AreHistory h [] = Unit
  AreHistory h (p ∷ ps) =
      (lib.as_array p.reply ≡ some (p.batch ++ (h ∷ p.older)))
      × All
          (λ t.
            (is_empty (row_id lib t) ≡ false) × (same_str (row_id lib t) (row_id lib h) ≡ false))
          p.batch
      × AreHistory (newest h p.batch) ps

  -- The polls of the code.
  unfoldable pub poll_pages : List (Page J) → Option Bytes → List (ClobFill W) × Option Bytes
  poll_pages [] last = ([], last)
  poll_pages (p ∷ ps) last =
      let got = extract_new_fills lib p.own invert maker_lc p.reply last in
      let rest = poll_pages ps got.1 in (got.0 ++ rest.0, rest.1)

  -- What should be handed out.
  unfoldable pub all_fills : List (Page J) → List (ClobFill W)
  unfolding fills_of
  all_fills [] = []
  all_fills (p ∷ ps) = fills_of p.own p.batch ++ all_fills ps

  unfoldable pub last_page : J → List (Page J) → J
  last_page h [] = h
  last_page h (p ∷ ps) = last_page (newest h p.batch) ps

  extract_rows-seen :
      (own : StringSet) (h : J) (batch older : List J) (last : Option Bytes)
      → is_empty (row_id lib h) ≡ false
      → All
          (λ t.
            (is_empty (row_id lib t) ≡ false) × (same_str (row_id lib t) (row_id lib h) ≡ false))
          batch
      → extract_rows lib own invert maker_lc (some (row_id lib h)) (batch ++ (h ∷ older)) last true
        ≡ (fills_of own batch, last)
  unfolding extract_rows fills_of
  extract_rows-seen own h [] older last some_id new =
      simp (some_id, same_str_refl (row_id lib h)) refl
  extract_rows-seen own h (t ∷ ts) older last some_id ((e, o), new) =
      simp (e, o, extract_rows-seen own h ts older last some_id new) refl

  -- One poll: the fills of the new rows, and the cursor at the newest row.
  extract_rows-page :
      (own : StringSet) (h : J) (batch older : List J)
      → is_empty (row_id lib h) ≡ false
      → All
          (λ t.
            (is_empty (row_id lib t) ≡ false) × (same_str (row_id lib t) (row_id lib h) ≡ false))
          batch
      → extract_rows lib own invert maker_lc
          (some (row_id lib h))
          (batch ++ (h ∷ older))
          (some (row_id lib h))
          false
        ≡ (fills_of own batch, some (row_id lib (newest h batch)))
  unfolding extract_rows fills_of
  extract_rows-page own h [] older some_id new = simp (some_id, same_str_refl (row_id lib h)) refl
  extract_rows-page own h (t ∷ ts) older some_id ((e, o), new) =
      simp (e, o, extract_rows-seen own h ts older (some (row_id lib t)) some_id new) refl

  extract_new_fills-page :
      (own : StringSet) (h reply : J) (batch older : List J)
      → is_empty (row_id lib h) ≡ false
      → lib.as_array reply ≡ some (batch ++ (h ∷ older))
      → All
          (λ t.
            (is_empty (row_id lib t) ≡ false) × (same_str (row_id lib t) (row_id lib h) ≡ false))
          batch
      → extract_new_fills lib own invert maker_lc reply (some (row_id lib h))
        ≡ (fills_of own batch, some (row_id lib (newest h batch)))
  unfolding extract_new_fills
  extract_new_fills-page own h reply batch older some_id rows new =
      rw (rows, extract_new_fills) (extract_rows-page own h batch older some_id new)

  newest-some_id :
      (h : J) (batch : List J)
      → is_empty (row_id lib h) ≡ false
      → All
          (λ t.
            (is_empty (row_id lib t) ≡ false) × (same_str (row_id lib t) (row_id lib h) ≡ false))
          batch
      → is_empty (row_id lib (newest h batch)) ≡ false
  newest-some_id h [] some_id new = some_id
  newest-some_id h (t ∷ ts) some_id ((e, o), new) = e

  -- Over any polls of a growing list of trades, whose rows have ids and whose new rows do not
  -- repeat the id of the newest row before, with each page long enough to hold that row: what is
  -- handed out is, poll after poll, the fills of the rows that are new, and the cursor is the
  -- newest row's id.
  pub poll_pages-all_fills :
      (pages : List (Page J)) (h : J)
      → is_empty (row_id lib h) ≡ false
      → AreHistory h pages
      → poll_pages pages (some (row_id lib h))
        ≡ (all_fills pages, some (row_id lib (last_page h pages)))
  unfolding poll_pages all_fills AreHistory last_page
  poll_pages-all_fills [] h some_id hist = refl
  poll_pages-all_fills (p ∷ ps) h some_id (rows, new, later) =
      simp
        (
          extract_new_fills-page p.own h p.reply p.batch p.older some_id rows new,
          poll_pages-all_fills ps (newest h p.batch) (newest-some_id h p.batch some_id new) later,
        )
        refl
