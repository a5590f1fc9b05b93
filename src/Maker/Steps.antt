-- ===== src/Maker/Steps.antt =====
-- What each operation of the bot does to its inventory, to the halt and to its orders.
use polymarket_live_maker.Prelude.{
  Bool, Bool-cases, Bytes, Double, List, Option, Option-cases, [], arith, false, ge, gt,
  if◌then◌else◌, inl, inr, lt, neg, nil, none, refl, some, suc, true, ℕ, ◌++◌, ◌∷◌, ◌≡◌, ◌≤◌, ◌⊗◌,
}
use polymarket_live_maker.OrderBook.{OrderBook}
use polymarket_live_maker.Maker.{Order}
use polymarket_live_maker.Maker.Bot.{
  Settings, LiveMakerBot, BotAction, cancel_all, place_order, clamp, detect_fill, apply_real_fill,
  plan, requote_calls, moved, Outcome, halted_step, jump_step, quoted, quote_step, step_outcome,
}

-- What the order of `double`s and the sign promise, NaN included.
pub record IsSigned (W : Type 0) ⦃d : Double W⦄ : Type 0 where
  pub lt_asym : (x y : W) → lt x y ≡ true → lt y x ≡ false
  pub neg_low : (m : W) → gt m nil ≡ true → lt m (neg m) ≡ false
  pub neg_nil : (m : W) → gt m nil ≡ true → lt nil (neg m) ≡ false

module _ {W : Type 0} ⦃d : Double W⦄ (s : Settings W) where
  -- Not above the bound, and not below its opposite.
  abbrev pub InBounds : W → Type 0
  InBounds x = (gt x s.max_inventory ≡ false) × (lt x (neg s.max_inventory) ≡ false)

  module _ (laws : IsSigned W) (bounded : gt s.max_inventory nil ≡ true) where
    irreflexive : (x : W) → lt x x ≡ false
    irreflexive x = elim (Bool-cases (lt x x)) [ inl e ↦ laws.lt_asym x x e | inr e ↦ e ]

    pub clamp-InBounds : (x : W) → InBounds (clamp s.max_inventory x)
    unfolding clamp
    clamp-InBounds x =
        let m = s.max_inventory in
        ground (
          arith,
          bounded,
          laws.neg_low m bounded,
          irreflexive m,
          irreflexive (neg m),
          laws.lt_asym x m,
          laws.lt_asym (neg m) x,
          laws.lt_asym (neg m) m,
        )

    pub nil-InBounds : InBounds nil
    nil-InBounds = (laws.lt_asym nil s.max_inventory bounded, laws.neg_nil s.max_inventory bounded)

    pub detect_fill-InBounds :
        (mid : W) (b : LiveMakerBot W) → InBounds (detect_fill s mid b).inventory
    unfolding detect_fill
    detect_fill-InBounds mid b = clamp-InBounds _

    -- With a positive bound on the inventory, after a fill of any side and size, from any inventory
    -- and NaN included, the inventory is neither above the bound nor below its opposite; the order
    -- and the sign of doubles keep the named laws.
    pub apply_real_fill-InBounds :
        (side : Bytes) (size : W) (b : LiveMakerBot W)
        → InBounds (apply_real_fill s side size b).inventory
    unfolding apply_real_fill
    apply_real_fill-InBounds side size b = clamp-InBounds _

  -- The orders placed since the last cancel, after `n` before these calls.
  unfoldable pub placed_since : ℕ → List (BotAction W) → ℕ
  placed_since n [] = n
  placed_since n (cancel_all tok ∷ calls) = placed_since 0 calls
  placed_since n (place_order tok o ∷ calls) = placed_since (suc n) calls

  pub placed_since-append :
      (n : ℕ) (xs ys : List (BotAction W))
      → placed_since n (xs ++ ys) ≡ placed_since (placed_since n xs) ys
  unfolding placed_since
  placed_since-append n [] ys = refl
  placed_since-append n (cancel_all tok ∷ xs) ys = placed_since-append 0 xs ys
  placed_since-append n (place_order tok o ∷ xs) ys = placed_since-append (suc n) xs ys

  -- At no point are more than two orders placed since the last cancel, with `n` before these calls.
  unfoldable pub AreSpaced : ℕ → List (BotAction W) → Type 0
  AreSpaced n [] = n ≤ 2
  AreSpaced n (cancel_all tok ∷ calls) = (n ≤ 2) × AreSpaced 0 calls
  AreSpaced n (place_order tok o ∷ calls) = (n ≤ 2) × AreSpaced (suc n) calls

  pub AreSpaced-append :
      (n : ℕ) (xs ys : List (BotAction W))
      → AreSpaced n xs
      → AreSpaced (placed_since n xs) ys
      → AreSpaced n (xs ++ ys)
  unfolding placed_since AreSpaced
  AreSpaced-append n [] ys h k = k
  AreSpaced-append n (cancel_all tok ∷ xs) ys (h, hs) k = (h, AreSpaced-append 0 xs ys hs k)
  AreSpaced-append n (place_order tok o ∷ xs) ys (h, hs) k =
      (h, AreSpaced-append (suc n) xs ys hs k)

  -- Before its first requote a bot has placed nothing since the last cancel, and later two at most.
  abbrev pub IsTidy : Option W → ℕ → Type 0
  IsTidy none n = n ≡ 0
  IsTidy (some prev) n = n ≤ 2

  pub tidy_le : (m : Option W) (n : ℕ) → IsTidy m n → n ≤ 2
  tidy_le none n h = omega arith
  tidy_le (some prev) n h = h

  module _ (R : Type 0) where
    pub places-IsTidy :
        (b : LiveMakerBot W) (requote : Bool) (quotes : Order W × Order W) (n : ℕ)
        → IsTidy b.last_mid n
        → placed_since n (requote_calls s R b requote quotes) ≤ 2
    unfolding requote_calls placed_since
    places-IsTidy b false quotes n h = tidy_le b.last_mid n h
    places-IsTidy b true quotes n h = ground arith

    pub places-AreSpaced :
        (b : LiveMakerBot W) (requote : Bool) (quotes : Order W × Order W) (n : ℕ)
        → IsTidy b.last_mid n
        → AreSpaced n (requote_calls s R b requote quotes)
    unfolding requote_calls AreSpaced
    places-AreSpaced b false quotes n h = tidy_le b.last_mid n h
    places-AreSpaced b true quotes n h = elim (Option-cases b.last_mid) [
      | inl z ↦
          let start : n ≡ 0 = rw z at h in
          rw z (omega (arith, start), (omega (arith, start), omega (arith, start)))
      | inr (prev, z) ↦ rw z (tidy_le b.last_mid n h, (omega arith, (omega arith, omega arith)))
    ]

    -- The fill that the price suggests comes first.
    abbrev pub after_fill : W → LiveMakerBot W → LiveMakerBot W
    after_fill mid b = if s.external_fills then b else detect_fill s mid b

    abbrev pub jumps : W → LiveMakerBot W → Bool
    jumps mid b = ge (moved s R mid b) (s.jump_exit_ticks ⊗ s.tick)

    -- What holds of the three ways of a step holds of the step.
    module _ {κ} (book : OrderBook W) (mid : W) (b : LiveMakerBot W)
        (P : Outcome s R → Type κ) where
      pub step_outcome_ways :
          (b.halted ≡ true → P (halted_step s R mid b))
          → (b.halted ≡ false → jumps mid b ≡ true → P (jump_step s R mid (after_fill mid b)))
          → (b.halted ≡ false
              → jumps mid b ≡ false
              → P (quoted s R mid (after_fill mid b) (plan s R book mid (after_fill mid b))))
          → P (step_outcome s R book mid b)
      unfolding step_outcome quote_step
      step_outcome_ways halted jump quote = elim (Bool-cases b.halted) [
        | inl e ↦ simp e (halted e)
        | inr e ↦ elim (Bool-cases (jumps mid b)) [
          | inl j ↦ simp (e, j) (jump e j)
          | inr j ↦ simp (e, j) (quote e j)
        ]
      ]
