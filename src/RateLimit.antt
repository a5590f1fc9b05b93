-- ===== src/RateLimit.antt =====
-- cpp/include/pmm/ratelimit.hpp: token buckets, and the bucket of an endpoint. The clock is a
-- parameter of each call: the seconds since the bucket's last refill. Locks are left out; a round of
-- the blocking loop gives the seconds to sleep.
pub mod Bounds
use polymarket_live_maker.Prelude.{
  Bool, Bytes, Double, List, Option, [], codes, false, find, fmax, fmin, ge, gt, if◌then◌else◌, le,
  lit, nil, none, put, round, some, true, ◌&&◌, ◌==◌, ◌||◌, ◌∷◌, ◌⊕◌, ◌⊖◌, ◌⊗◌, ◌⊘◌,
}

pub record TokenBucket (W : Type 0) : Type 0 where
  pub rate : W
  pub capacity : W
  pub reserve : W
  pub tokens : W
  pub granted : W
  pub granted_low : W

abbrev starts : Bytes → Bytes → Bool
starts [] text = true
starts (c ∷ cs) [] = false
starts (c ∷ cs) (x ∷ text) = c == x && starts cs text

-- `p.find(s) != npos`.
unfoldable pub has : Bytes → Bytes → Bool
has [] s = starts s []
has (x ∷ p) s = starts s (x ∷ p) || has p s

-- One round of `acquire`: granted, given up, or the seconds to sleep. `remaining` is the time to
-- the deadline.
pub data Turn (W : Type 0) : Type 0 where
  taken given_up : Turn W
  sleep : W → Turn W

pub record RateLimiter (W : Type 0) : Type 0 where
  pub host : TokenBucket W
  pub buckets : List (Bytes × TokenBucket W)

module _ {W : Type 0} ⦃d : Double W⦄ where
  unfoldable pub new_bucket : W → Option W → W → TokenBucket W
  new_bucket rate burst reserve =
      let capacity : W = elim burst [ none ↦ fmax (lit 1 0) rate | some b ↦ b ] in
      record {
        rate = rate;
        capacity = capacity;
        reserve = reserve;
        tokens = capacity;
        granted = nil;
        granted_low = nil;
      }

  abbrev pub with_tokens : W → TokenBucket W → TokenBucket W
  with_tokens t b = record {
    rate = b.rate;
    capacity = b.capacity;
    reserve = b.reserve;
    tokens = t;
    granted = b.granted;
    granted_low = b.granted_low;
  }

  unfoldable pub refill_locked : W → TokenBucket W → TokenBucket W
  refill_locked elapsed b =
      if gt elapsed nil then with_tokens (fmin b.capacity (b.tokens ⊕ elapsed ⊗ b.rate)) b else b

  unfoldable pub count_locked : W → Bool → TokenBucket W → TokenBucket W
  count_locked n low_priority b = record {
    rate = b.rate;
    capacity = b.capacity;
    reserve = b.reserve;
    tokens = b.tokens;
    granted = b.granted ⊕ n;
    granted_low = if low_priority then b.granted_low ⊕ n else b.granted_low;
  }

  abbrev floor_of : Bool → TokenBucket W → W
  floor_of low_priority b = if low_priority then b.reserve else nil

  unfoldable pub try_acquire : W → W → Bool → TokenBucket W → Bool × TokenBucket W
  unfolding refill_locked count_locked
  try_acquire elapsed n low_priority b =
      let r = refill_locked elapsed b in
      if ge r.tokens (n ⊕ floor_of low_priority b)
      then (true, count_locked n low_priority (with_tokens (r.tokens ⊖ n) r))
      else (false, r)

  unfoldable pub wait_of : Option W → W → Turn W
  wait_of none wait = sleep (fmin (fmax wait nil) (lit 5 2))
  wait_of (some remaining) wait =
      if le remaining nil then given_up else sleep (fmin (fmax (fmin wait remaining) nil) (lit 5 2))

  unfoldable pub acquire_round : W → W → Bool → Option W → TokenBucket W → Turn W × TokenBucket W
  unfolding try_acquire wait_of
  acquire_round elapsed n low_priority remaining b =
      let tried = try_acquire elapsed n low_priority b in
      let deficit = n ⊕ floor_of low_priority b ⊖ tried.1.tokens in
      if tried.0
      then (taken, tried.1)
      else (wait_of remaining (if gt b.rate nil then deficit ⊘ b.rate else lit 5 2), tried.1)

  -- The name and the rate of the bucket of a path; `write` is POST or DELETE.
  unfoldable pub classify : Bytes → Bool → Bytes × W
  unfolding has
  classify p write =
      if write && has p (codes "/cancel-all")
      then (codes "cancel_all", lit 25 0)
      else if write && has p (codes "/orders")
      then (codes "orders_batch", lit 200 0)
      else if write && has p (codes "/order")
      then (codes "order_write", lit 200 0)
      else if has p (codes "/data/trades")
      then (codes "data_trades", lit 50 0)
      else if has p (codes "/prices-history")
      then (codes "prices_history", lit 100 0)
      else if has p (codes "/books")
      then (codes "books_batch", lit 50 0)
      else if has p (codes "/book")
      then (codes "book", lit 150 0)
      else if has p (codes "/midpoints")
      then (codes "midpoints_batch", lit 50 0)
      else if has p (codes "/midpoint")
      then (codes "midpoint", lit 150 0)
      else if has p (codes "/prices")
      then (codes "prices_batch", lit 50 0)
      else if has p (codes "/price")
      then (codes "price", lit 150 0)
      else if has p (codes "/sampling")
      then (codes "sampling", lit 50 0)
      else if has p (codes "/markets")
      then (codes "markets", lit 30 0)
      else (codes "clob_misc", lit 90 0)

  -- The bucket of a key, made at its first use.
  unfoldable pub bucket_for :
      Bytes → W → List (Bytes × TokenBucket W) → List (Bytes × TokenBucket W)
  unfolding new_bucket
  bucket_for key rate buckets = elim (find key buckets) [
    | some b ↦ buckets
    | none ↦ put key (new_bucket rate (some (fmax rate (rate ⊗ lit 12 1))) nil) buckets
  ]

  unfoldable pub available : W → TokenBucket W → W × TokenBucket W
  unfolding refill_locked
  available elapsed b = ((refill_locked elapsed b).tokens, refill_locked elapsed b)

  unfoldable pub granted_for : Bytes → List (Bytes × TokenBucket W) → W
  granted_for key buckets = elim (find key buckets) [ none ↦ nil | some b ↦ b.granted ]

  unfoldable pub new_limiter : RateLimiter W
  new_limiter = record { host = new_bucket (lit 900 0) (some (lit 1500 0)) nil; buckets = [] }

  -- A round at the bucket of the endpoint, and one at the bucket of the host, which comes once the
  -- first has granted.
  unfoldable pub round_at :
      W
      → Bytes
      → Option (TokenBucket W)
      → List (Bytes × TokenBucket W)
      → RateLimiter W
      → Turn W × RateLimiter W
  round_at elapsed key none buckets l = (given_up, l)
  round_at elapsed key (some b) buckets l =
      let round = acquire_round elapsed (lit 1 0) false none b in
      (round.0, record { host = l.host; buckets = put key round.1 buckets })

  unfoldable pub endpoint_round : W → Bytes → Bool → RateLimiter W → Turn W × RateLimiter W
  endpoint_round elapsed path write l =
      let limit = classify path write in
      let buckets = bucket_for limit.0 limit.1 l.buckets in
      round_at elapsed limit.0 (find limit.0 buckets) buckets l

  unfoldable pub host_round : W → RateLimiter W → Turn W × RateLimiter W
  host_round elapsed l =
      let round = acquire_round elapsed (lit 1 0) false none l.host in
      (round.0, record { host = round.1; buckets = l.buckets })
