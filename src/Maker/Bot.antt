-- ===== src/Maker/Bot.antt =====
-- LiveMakerBot of cpp/src/pmm/maker_live.cpp. The submitter is a parameter: a state, and a call that
-- gives the next state and a response, and that does not throw. A plan that throws leaves what the step
-- did before it.
use polymarket_live_maker.Prelude.{
  Bool, Bytes, Double, List, Option, [], codes, fabs, false, fmax, fmin, ge, gt, if◌then◌else◌, inl,
  inr, le, leb, lit, map, neg, nil, none, not, same_str, some, true, ◌&&◌, ◌-◌, ◌∷◌, ◌⊎◌, ◌⊕◌, ◌⊖◌,
  ◌⊗◌, ◌⊘◌,
}
use polymarket_live_maker.OrderBook.{
  OrderBook, round_to, book_inband_qmin, maker_reward_share, committed_capital,
}
use polymarket_live_maker.Maker.{Order, QuoteError, compute_two_sided_quotes, plan_requote}

pub record MakerBotConfig (W : Type 0) : Type 0 where
  pub token_id : Bytes
  pub max_spread_c : W
  pub min_size : W
  pub tick : W
  pub half_spread_c : Option W
  pub size : Option W
  pub dry_run : Bool
  pub max_inventory : Option W
  pub skew_strength_ticks : W
  pub jump_exit_ticks : Option W
  pub external_fills : Bool

-- The fields that no operation changes.
pub record Settings (W : Type 0) : Type 0 where
  pub token_id : Bytes
  pub external_fills : Bool
  pub max_spread_c : W
  pub tick : W
  pub half_spread_c : W
  pub size : W
  pub dry_run : Bool
  pub jump_exit_ticks : W
  pub max_inventory : W
  pub skew_strength_ticks : W

-- The fields that change.
pub record LiveMakerBot (W : Type 0) : Type 0 where
  pub last_mid : Option W
  pub halted : Bool
  pub inventory : W
  pub last_bid : Option W
  pub last_ask : Option W

-- The JSON objects that are submitted.
pub data BotAction (W : Type 0) : Type 0 where
  cancel_all : Bytes → BotAction W
  place_order : Bytes → Order W → BotAction W

pub record MakerPlan (W R : Type 0) : Type 0 where
  pub token_id : Bytes
  pub mid : W
  pub requote : Bool
  pub orders : List (Order W)
  pub est_reward_share : W
  pub committed_capital : W
  pub inventory : W
  pub skew_ticks : W
  pub dry_run : Bool
  pub halted : Bool
  pub submitted : List R
  pub recommend : Bytes

abbrev value_or {ℓ} : {A : Type ℓ} → Option A → A → A
value_or none b = b
value_or (some a) b = a

unfoldable pub to_upper : Bytes → Bytes
to_upper = map (λ c. if leb b'a' c && leb c b'z' then c - 32 else c)

module _ {W : Type 0} ⦃d : Double W⦄ where
  unfoldable pub settings : MakerBotConfig W → Settings W
  settings cfg = record {
    token_id = cfg.token_id;
    external_fills = cfg.external_fills;
    max_spread_c = cfg.max_spread_c;
    tick = cfg.tick;
    half_spread_c = value_or cfg.half_spread_c (cfg.tick ⊗ lit 100 0);
    size = value_or cfg.size cfg.min_size;
    dry_run = cfg.dry_run;
    jump_exit_ticks = value_or cfg.jump_exit_ticks (cfg.max_spread_c ⊘ (cfg.tick ⊗ lit 100 0));
    max_inventory = value_or cfg.max_inventory (lit 5 0 ⊗ value_or cfg.size cfg.min_size);
    skew_strength_ticks = cfg.skew_strength_ticks;
  }

  -- A new bot, or the refusal of a live one without a submitter.
  unfoldable pub new_bot : MakerBotConfig W → Bool → Option (LiveMakerBot W)
  new_bot cfg has_submitter =
      if not cfg.dry_run && not has_submitter
      then none
      else some (record {
        last_mid = none;
        halted = false;
        inventory = nil;
        last_bid = none;
        last_ask = none;
      })

  abbrev pub with_inventory : W → LiveMakerBot W → LiveMakerBot W
  with_inventory x b = record {
    last_mid = b.last_mid;
    halted = b.halted;
    inventory = x;
    last_bid = b.last_bid;
    last_ask = b.last_ask;
  }

  unfoldable pub set_halted : Bool → LiveMakerBot W → LiveMakerBot W
  set_halted h b = record {
    last_mid = b.last_mid;
    halted = h;
    inventory = b.inventory;
    last_bid = b.last_bid;
    last_ask = b.last_ask;
  }

  unfoldable pub clamp : W → W → W
  clamp max_inventory x =
      if gt max_inventory nil then fmax (neg max_inventory) (fmin max_inventory x) else x

  module _ (s : Settings W) where
    unfoldable pub skew_ticks : LiveMakerBot W → W
    skew_ticks b =
        if le s.max_inventory nil
        then nil
        else s.skew_strength_ticks
          ⊗ fmax (neg (lit 1 0)) (fmin (lit 1 0) (b.inventory ⊘ s.max_inventory))

    abbrev pub crosses : (W → W → Bool) → W → Option W → Bool
    crosses cmp mid none = false
    crosses cmp mid (some last) = cmp mid last

    unfoldable pub detect_fill : W → LiveMakerBot W → LiveMakerBot W
    unfolding clamp
    detect_fill mid b =
        with_inventory
          (clamp s.max_inventory (
            if crosses ge mid b.last_ask
            then b.inventory ⊖ s.size
            else if crosses le mid b.last_bid
            then b.inventory ⊕ s.size
            else b.inventory))
          b

    unfoldable pub apply_real_fill : Bytes → W → LiveMakerBot W → LiveMakerBot W
    unfolding clamp to_upper
    apply_real_fill side size b =
        with_inventory
          (clamp s.max_inventory (
            if same_str (to_upper side) (codes "BUY")
            then b.inventory ⊕ size
            else b.inventory ⊖ size))
          b

    abbrev pub wants_requote : W → LiveMakerBot W → Bool
    wants_requote mid b = elim b.last_mid [ none ↦ true | some prev ↦ plan_requote prev mid s.tick ]

    module _ (R : Type 0) where
      -- The plan for the quotes, if there are any.
      unfoldable pub planned :
          OrderBook W
          → W
          → LiveMakerBot W
          → QuoteError ⊎ (Order W × Order W)
          → QuoteError ⊎ (MakerPlan W R × (Order W × Order W))
      planned book mid b (inl e) = inl e
      planned book mid b (inr quotes) = inr (
        record {
          token_id = s.token_id;
          mid = mid;
          requote = wants_requote mid b;
          orders = quotes.0 ∷ quotes.1 ∷ [];
          est_reward_share =
              round_to
                (maker_reward_share s.size s.half_spread_c s.max_spread_c
                  (book_inband_qmin book mid s.max_spread_c))
                4;
          committed_capital = round_to (committed_capital s.size s.half_spread_c) 2;
          inventory = round_to b.inventory 4;
          skew_ticks = round_to (skew_ticks b) 4;
          dry_run = s.dry_run;
          halted = false;
          submitted = [];
          recommend = [];
        },
        quotes,
      )

      unfoldable pub plan :
          OrderBook W → W → LiveMakerBot W → QuoteError ⊎ (MakerPlan W R × (Order W × Order W))
      unfolding planned
      plan book mid b =
          planned book mid b (
            compute_two_sided_quotes mid s.half_spread_c s.size s.tick s.max_spread_c
              (skew_ticks b))

      unfoldable pub halt_plan : W → List R → LiveMakerBot W → MakerPlan W R
      halt_plan mid submitted b = record {
        token_id = s.token_id;
        mid = mid;
        requote = false;
        orders = [];
        est_reward_share = nil;
        committed_capital = nil;
        inventory = round_to b.inventory 4;
        skew_ticks = nil;
        dry_run = false;
        halted = true;
        submitted = submitted;
        recommend = codes "exit_cooldown";
      }

      -- What a step does: the fields after it, the calls of the submitter in order, and what it
      -- returns or throws, given their responses.
      pub record Outcome : Type 0 where
        pub bot : LiveMakerBot W
        pub calls : List (BotAction W)
        pub answer : List R → QuoteError ⊎ MakerPlan W R

      abbrev pub moved : W → LiveMakerBot W → W
      moved mid b = elim b.last_mid [ none ↦ nil | some prev ↦ fabs (mid ⊖ prev) ]

      -- A plan that changes nothing is submitted as nothing.
      unfoldable pub requote_calls : LiveMakerBot W → Bool → Order W × Order W → List (BotAction W)
      requote_calls b requote quotes =
          let places = place_order s.token_id quotes.0 ∷ place_order s.token_id quotes.1 ∷ [] in
          if requote
          then elim b.last_mid [ none ↦ places | some prev ↦ cancel_all s.token_id ∷ places ]
          else []

      abbrev pub with_submitted : List R → MakerPlan W R → MakerPlan W R
      with_submitted rs p = record {
        token_id = p.token_id;
        mid = p.mid;
        requote = p.requote;
        orders = p.orders;
        est_reward_share = p.est_reward_share;
        committed_capital = p.committed_capital;
        inventory = p.inventory;
        skew_ticks = p.skew_ticks;
        dry_run = p.dry_run;
        halted = false;
        submitted = rs;
        recommend = p.recommend;
      }

      -- A halted bot only notes the price.
      unfoldable pub halted_step : W → LiveMakerBot W → Outcome
      unfolding halt_plan
      halted_step mid b = record {
        bot = record {
          last_mid = some mid;
          halted = b.halted;
          inventory = b.inventory;
          last_bid = b.last_bid;
          last_ask = b.last_ask;
        };
        calls = [];
        answer = λ rs. inr (halt_plan mid [] b);
      }

      unfoldable pub jump_step : W → LiveMakerBot W → Outcome
      unfolding halt_plan
      jump_step mid b = record {
        bot = record {
          last_mid = some mid;
          halted = true;
          inventory = b.inventory;
          last_bid = b.last_bid;
          last_ask = b.last_ask;
        };
        calls = cancel_all s.token_id ∷ [];
        answer = λ rs. inr (halt_plan mid rs b);
      }

      -- The rest of a step, once the plan is made or has thrown.
      unfoldable pub quoted :
          W → LiveMakerBot W → QuoteError ⊎ (MakerPlan W R × (Order W × Order W)) → Outcome
      quoted mid b (inl e) = record { bot = b; calls = []; answer = λ rs. inl e }
      quoted mid b (inr (p, quotes)) = record {
        bot = record {
          last_mid = some mid;
          halted = b.halted;
          inventory = b.inventory;
          last_bid = some quotes.0.price;
          last_ask = some quotes.1.price;
        };
        calls = requote_calls b p.requote quotes;
        answer = λ rs. inr (with_submitted rs p);
      }

      unfoldable pub quote_step : OrderBook W → W → LiveMakerBot W → Outcome
      unfolding quoted
      quote_step book mid b = quoted mid b (plan book mid b)

      unfoldable pub step_outcome : OrderBook W → W → LiveMakerBot W → Outcome
      step_outcome book mid b =
          let filled = if s.external_fills then b else detect_fill mid b in
          if b.halted
          then halted_step mid b
          else if ge (moved mid b) (s.jump_exit_ticks ⊗ s.tick)
          then jump_step mid filled
          else quote_step book mid filled

      module _ {S : Type 0} (submit : S → BotAction W → S × R) where
        unfoldable pub send_all : S → List (BotAction W) → S × List R
        send_all st [] = (st, [])
        send_all st (a ∷ calls) =
            let sent = submit st a in let rest = send_all sent.0 calls in (rest.0, sent.1 ∷ rest.1)

        unfoldable pub step :
            OrderBook W → W → LiveMakerBot W × S → (QuoteError ⊎ MakerPlan W R) × LiveMakerBot W × S
        step book mid (b, st) =
            let o = step_outcome book mid b in
            let sent = send_all st o.calls in (o.answer sent.1, o.bot, sent.0)
