-- ===== src/Maker/Runs.antt =====
-- Runs of the bot: steps, reported fills and switches of the halt, in any order, with its calls.
use polymarket_live_maker.Prelude.{
  All, Bool, Bool-cases, Bytes, Double, List, Option, [], append-nil, arith, false, gt, inl, inr,
  nil, none, refl, some, subst, sym, true, ℕ, ◌++◌, ◌∙◌, ◌∷◌, ◌≡◌, ◌⊎◌,
}
use polymarket_live_maker.OrderBook.{OrderBook}
use polymarket_live_maker.Maker.{Order, QuoteError}
use polymarket_live_maker.Maker.Bot.{
  MakerBotConfig, Settings, LiveMakerBot, BotAction, cancel_all, place_order, MakerPlan, settings,
  new_bot, set_halted, detect_fill, apply_real_fill, Outcome, halted_step, jump_step, quoted,
  step_outcome,
}
use polymarket_live_maker.Maker.Steps.{
  tidy_le, IsSigned, InBounds, nil-InBounds, detect_fill-InBounds, apply_real_fill-InBounds,
  placed_since, placed_since-append, AreSpaced, AreSpaced-append, IsTidy, places-IsTidy,
  places-AreSpaced, after_fill, jumps, step_outcome_ways,
}

-- What can happen: a step, a fill that the exchange reports, and a switch of the halt.
pub data Event (W : Type 0) : Type 0 where
  stepped : OrderBook W → W → Event W
  filled : Bytes → W → Event W
  switched : Bool → Event W

-- The bot and the calls so far.
pub record World (W : Type 0) : Type 0 where
  pub bot : LiveMakerBot W
  pub log : List (BotAction W)

module _ {W : Type 0} ⦃d : Double W⦄ where
  -- Nobody lifts the halt.
  unfoldable pub IsHeld : Event W → Type 0
  IsHeld (switched h) = h ≡ true
  IsHeld _ = Unit

  module _ (s : Settings W) (R : Type 0) where
    after_fill-last_mid :
        (mid : W) (b : LiveMakerBot W) → (after_fill s R mid b).last_mid ≡ b.last_mid
    unfolding detect_fill
    after_fill-last_mid mid b = elim (Bool-cases s.external_fills) [
      | inl e ↦ rw e refl
      | inr e ↦ rw e refl
    ]

    after_fill-halted : (mid : W) (b : LiveMakerBot W) → (after_fill s R mid b).halted ≡ b.halted
    unfolding detect_fill
    after_fill-halted mid b = elim (Bool-cases s.external_fills) [
      | inl e ↦ rw e refl
      | inr e ↦ rw e refl
    ]

    -- The cancel that goes before new orders.
    abbrev pub clears : Option W → List (BotAction W)
    clears none = []
    clears (some prev) = cancel_all s.token_id ∷ []

    quoted-IsTidy :
        (mid : W) (b : LiveMakerBot W) (p : QuoteError ⊎ (MakerPlan W R × (Order W × Order W)))
        (n : ℕ)
        → IsTidy s b.last_mid n
        → IsTidy s (quoted s R mid b p).bot.last_mid (placed_since s n (quoted s R mid b p).calls)
    unfolding quoted placed_since
    quoted-IsTidy mid b (inl e) n h = h
    quoted-IsTidy mid b (inr (p, quotes)) n h = places-IsTidy s R b p.requote quotes n h

    pub step_outcome-IsTidy :
        (book : OrderBook W) (mid : W) (b : LiveMakerBot W) (n : ℕ)
        → IsTidy s b.last_mid n
        → IsTidy s
            (step_outcome s R book mid b).bot.last_mid
            (placed_since s n (step_outcome s R book mid b).calls)
    unfolding halted_step jump_step placed_since
    step_outcome-IsTidy book mid b n h =
        step_outcome_ways s R book mid b (λ o. IsTidy s o.bot.last_mid (placed_since s n o.calls))
          (λ e. tidy_le s b.last_mid n h) (λ e j. omega arith)
          (λ e j.
            quoted-IsTidy mid (after_fill s R mid b) _ n
              (subst (λ m. IsTidy s m n) (sym (after_fill-last_mid mid b)) h))

    quoted-AreSpaced :
        (mid : W) (b : LiveMakerBot W) (p : QuoteError ⊎ (MakerPlan W R × (Order W × Order W)))
        (n : ℕ)
        → IsTidy s b.last_mid n
        → AreSpaced s n (quoted s R mid b p).calls
    unfolding quoted AreSpaced
    quoted-AreSpaced mid b (inl e) n h = tidy_le s b.last_mid n h
    quoted-AreSpaced mid b (inr (p, quotes)) n h = places-AreSpaced s R b p.requote quotes n h

    step_outcome-AreSpaced :
        (book : OrderBook W) (mid : W) (b : LiveMakerBot W) (n : ℕ)
        → IsTidy s b.last_mid n
        → AreSpaced s n (step_outcome s R book mid b).calls
    unfolding halted_step jump_step AreSpaced
    step_outcome-AreSpaced book mid b n h =
        step_outcome_ways s R book mid b (λ o. AreSpaced s n o.calls)
          (λ e. tidy_le s b.last_mid n h) (λ e j. (tidy_le s b.last_mid n h, omega arith))
          (λ e j.
            quoted-AreSpaced mid (after_fill s R mid b) _ n
              (subst (λ m. IsTidy s m n) (sym (after_fill-last_mid mid b)) h))

    quoted-InBounds :
        (mid : W) (b : LiveMakerBot W) (p : QuoteError ⊎ (MakerPlan W R × (Order W × Order W)))
        → InBounds s b.inventory
        → InBounds s (quoted s R mid b p).bot.inventory
    unfolding quoted
    quoted-InBounds mid b (inl e) h = h
    quoted-InBounds mid b (inr (p, quotes)) h = h

    module _ (laws : IsSigned W) (bounded : gt s.max_inventory nil ≡ true) where
      after_fill-InBounds :
          (mid : W) (b : LiveMakerBot W)
          → InBounds s b.inventory
          → InBounds s (after_fill s R mid b).inventory
      after_fill-InBounds mid b h = elim (Bool-cases s.external_fills) [
        | inl e ↦ simp e h
        | inr e ↦ simp e (detect_fill-InBounds s laws bounded mid b)
      ]

      pub step_outcome-InBounds :
          (book : OrderBook W) (mid : W) (b : LiveMakerBot W)
          → InBounds s b.inventory
          → InBounds s (step_outcome s R book mid b).bot.inventory
      unfolding halted_step jump_step
      step_outcome-InBounds book mid b h =
          step_outcome_ways s R book mid b (λ o. InBounds s o.bot.inventory) (λ e. h)
            (λ e j. after_fill-InBounds mid b h)
            (λ e j. quoted-InBounds mid (after_fill s R mid b) _ (after_fill-InBounds mid b h))

    quoted-halted :
        (mid : W) (b : LiveMakerBot W) (p : QuoteError ⊎ (MakerPlan W R × (Order W × Order W)))
        → (quoted s R mid b p).bot.halted ≡ b.halted
    unfolding quoted
    quoted-halted mid b (inl e) = refl
    quoted-halted mid b (inr (p, quotes)) = refl

    pub step_outcome-quiet :
        (book : OrderBook W) (mid : W) (b : LiveMakerBot W)
        → b.halted ≡ true
        → ((step_outcome s R book mid b).calls ≡ [])
          × ((step_outcome s R book mid b).bot.halted ≡ true)
    unfolding halted_step
    step_outcome-quiet book mid b h =
        step_outcome_ways s R book mid b (λ o. (o.calls ≡ []) × (o.bot.halted ≡ true))
          (λ e. (refl, e)) (λ e j. cc) (λ e j. cc)

    unfoldable pub happen : Event W → World W → World W
    happen (stepped book mid) w =
        let o = step_outcome s R book mid w.bot in record { bot = o.bot; log = w.log ++ o.calls }
    happen (filled side size) w = record { bot = apply_real_fill s side size w.bot; log = w.log }
    happen (switched h) w = record { bot = set_halted h w.bot; log = w.log }

    unfoldable pub run : List (Event W) → World W → World W
    run [] w = w
    run (e ∷ rest) w = run rest (happen e w)

    IsKept : World W → Type 0
    IsKept w = IsTidy s w.bot.last_mid (placed_since s 0 w.log) × AreSpaced s 0 w.log

    happen-IsKept : (e : Event W) (w : World W) → IsKept w → IsKept (happen e w)
    unfolding happen IsKept apply_real_fill set_halted
    happen-IsKept (stepped book mid) w (h, spaced) =
        let o = step_outcome s R book mid w.bot in
        let n = placed_since s 0 w.log in
        (
          subst (λ k. IsTidy s o.bot.last_mid k) (sym (placed_since-append s 0 w.log o.calls))
              (step_outcome-IsTidy book mid w.bot n h),
          AreSpaced-append s 0 w.log o.calls spaced (step_outcome-AreSpaced book mid w.bot n h),
        )
    happen-IsKept (filled side size) w h = h
    happen-IsKept (switched x) w h = h

    run-IsKept : (events : List (Event W)) (w : World W) → IsKept w → IsKept (run events w)
    unfolding run
    run-IsKept [] w h = h
    run-IsKept (e ∷ rest) w h = run-IsKept rest (happen e w) (happen-IsKept e w h)

    module _ (laws : IsSigned W) (bounded : gt s.max_inventory nil ≡ true) where
      happen-InBounds :
          (e : Event W) (w : World W)
          → InBounds s w.bot.inventory
          → InBounds s (happen e w).bot.inventory
      unfolding happen set_halted
      happen-InBounds (stepped book mid) w h = step_outcome-InBounds laws bounded book mid w.bot h
      happen-InBounds (filled side size) w h =
          apply_real_fill-InBounds s laws bounded side size w.bot
      happen-InBounds (switched x) w h = h

      run-InBounds_from :
          (events : List (Event W)) (w : World W)
          → InBounds s w.bot.inventory
          → InBounds s (run events w).bot.inventory
      unfolding run
      run-InBounds_from [] w h = h
      run-InBounds_from (e ∷ rest) w h = run-InBounds_from rest (happen e w) (happen-InBounds e w h)

    -- What the step throws, with nothing sent; or two orders, after a cancel if there was a price. The
    -- plan that is returned has the same orders and the answers, and the bot notes their prices.
    unfoldable pub IsQuoted : W → Option W → Outcome s R → Type 0
    IsQuoted mid last o =
        ((e : QuoteError) × (o.calls ≡ []) × ((rs : List R) → o.answer rs ≡ inl e))
        ⊎ ((bid : Order W) × (ask : Order W) × (p : MakerPlan W R) × (o.calls
              ≡ clears last ++ place_order s.token_id bid ∷ place_order s.token_id ask ∷ [])
            × (p.orders ≡ bid ∷ ask ∷ [])
            × ((rs : List R) → o.answer rs ≡ inr (record p { submitted = rs }))
            × (o.bot.last_mid ≡ some mid)
            × (o.bot.last_bid ≡ some bid.price)
            × (o.bot.last_ask ≡ some ask.price))

    -- A plan that is not thrown asks for new orders, which it lists, and is not halted.
    unfoldable IsAsked : QuoteError ⊎ (MakerPlan W R × (Order W × Order W)) → Type 0
    IsAsked (inl e) = Unit
    IsAsked (inr (p, quotes)) =
        (p.requote ≡ true) × (p.orders ≡ quotes.0 ∷ quotes.1 ∷ []) × (p.halted ≡ false)

    -- No call has come since.
    IsQuiet : World W → World W → Type 0
    IsQuiet w v = (v.log ≡ w.log) × (v.bot.halted ≡ true)

    happen-IsQuiet : (e : Event W) (w v : World W) → IsHeld e → IsQuiet w v → IsQuiet w (happen e v)
    unfolding happen IsHeld IsQuiet apply_real_fill set_halted
    happen-IsQuiet (stepped book mid) w v held (same, halt) =
        let q = step_outcome-quiet book mid v.bot halt in (rw (q.0, append-nil) same, q.1)
    happen-IsQuiet (filled side size) w v held q = q
    happen-IsQuiet (switched h) w v held (same, halt) = (same, held)

    run-IsQuiet_from :
        (events : List (Event W)) (w v : World W)
        → All IsHeld events
        → IsQuiet w v
        → IsQuiet w (run events v)
    unfolding run
    run-IsQuiet_from [] w v held q = q
    run-IsQuiet_from (e ∷ rest) w v (h, held) q =
        run-IsQuiet_from rest w (happen e v) held (happen-IsQuiet e w v h q)

    -- A halted bot sends nothing and stays halted over any events that do not lift the halt.
    run-IsQuiet :
        (events : List (Event W)) (w : World W)
        → w.bot.halted ≡ true
        → All IsHeld events
        → IsQuiet w (run events w)
    unfolding IsQuiet
    run-IsQuiet events w halt held = run-IsQuiet_from events w w held (refl, halt)

    jump_outcome :
        (book : OrderBook W) (mid : W) (b : LiveMakerBot W)
        → b.halted ≡ false
        → jumps s R mid b ≡ true
        → ((step_outcome s R book mid b).calls ≡ cancel_all s.token_id ∷ [])
          × ((step_outcome s R book mid b).bot.halted ≡ true)
    unfolding jump_step
    jump_outcome book mid b awake jump =
        step_outcome_ways s R book mid b
          (λ o. (o.calls ≡ cancel_all s.token_id ∷ []) × (o.bot.halted ≡ true)) (λ e. cc)
          (λ e j. (refl, refl)) (λ e j. cc)

    -- After a jump of the price: one last call that cancels all.
    pub IsFlattened : World W → World W → Type 0
    IsFlattened w v = (v.log ≡ w.log ++ cancel_all s.token_id ∷ []) × (v.bot.halted ≡ true)

    -- A step of a bot that is not halted, in which the price has jumped, makes one last call, which
    -- cancels all; after any further events that do not lift the halt no other call was made, and
    -- the bot is halted.
    pub run-jump :
        (book : OrderBook W) (mid : W) (events : List (Event W)) (w : World W)
        → w.bot.halted ≡ false
        → jumps s R mid w.bot ≡ true
        → All IsHeld events
        → IsFlattened w (run (stepped book mid ∷ events) w)
    unfolding run happen IsQuiet IsFlattened
    run-jump book mid events w awake jump held =
        let j = jump_outcome book mid w.bot awake jump in
        let q = run-IsQuiet events (happen (stepped book mid) w) j.1 held in
        (q.0 ∙ rw j.0 refl, q.1)

  -- A bot before its first step.
  abbrev pub beginning : LiveMakerBot W → World W
  beginning b = record { bot = b; log = [] }

  module _ (R : Type 0) (cfg : MakerBotConfig W) (has_submitter : Bool) (b : LiveMakerBot W)
      (made : new_bot cfg has_submitter ≡ some b) where
    new_bot_fresh : (b.last_mid ≡ none) × (b.inventory ≡ nil) × (b.halted ≡ false)
    unfolding new_bot
    new_bot_fresh = grind arith

    -- For a bot that was made, over any run of steps, reported fills and switches of the halt: at
    -- no point of the calls to the submitter are there more than two orders placed since the last
    -- call that cancels all, or since the start.
    pub run-AreSpaced :
        (events : List (Event W))
        → AreSpaced (settings cfg) 0 (run (settings cfg) R events (beginning b)).log
    unfolding IsKept AreSpaced placed_since
    run-AreSpaced events =
        (run-IsKept (settings cfg) R events (beginning b) (rw new_bot_fresh.0 refl, omega arith)).1

    -- With a positive bound and the named laws of doubles, the inventory of a bot that was made is
    -- neither above the bound nor below its opposite after any run.
    pub run-InBounds :
        IsSigned W
        → gt (settings cfg).max_inventory nil ≡ true
        → (events : List (Event W))
        → InBounds (settings cfg) (run (settings cfg) R events (beginning b)).bot.inventory
    run-InBounds laws bounded events =
        run-InBounds_from (settings cfg) R laws bounded events (beginning b)
          (rw new_bot_fresh.1 (nil-InBounds (settings cfg) laws bounded))
