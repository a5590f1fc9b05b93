-- ===== src/RateLimit/Bounds.antt =====
-- What the buckets never exceed: their capacity and the sleep of a round.
use polymarket_live_maker.Prelude.{
  All, Bool, Bool-cases, Double, List, Option, [], arith, false, fmax, fmin, ge, gt, if◌then◌else◌,
  inl, inr, le, lit, lt, nil, none, refl, some, true, ◌∷◌, ◌≡◌, ◌⊕◌, ◌⊖◌,
}
use polymarket_live_maker.RateLimit.{
  TokenBucket, Turn, sleep, new_bucket, refill_locked, count_locked, try_acquire, wait_of,
  acquire_round,
}

-- What the arithmetic of `double`s promises, NaN included.
pub record IsOrdered (W : Type 0) ⦃d : Double W⦄ : Type 0 where
  pub lt_asym : (x y : W) → lt x y ≡ true → lt y x ≡ false
  pub minus_le : (x n c : W) → lt n nil ≡ false → gt x c ≡ false → gt (x ⊖ n) c ≡ false

-- A request of tokens: the seconds since the last one, the number and the priority.
pub record Try (W : Type 0) : Type 0 where
  pub elapsed : W
  pub n : W
  pub low_priority : Bool

module _ {W : Type 0} ⦃d : Double W⦄ where
  unfoldable pub tries : List (Try W) → TokenBucket W → TokenBucket W
  tries [] b = b
  tries (t ∷ ts) b = tries ts (try_acquire t.elapsed t.n t.low_priority b).1

  unfoldable pub IsCalm : Try W → Type 0
  IsCalm t = lt t.n nil ≡ false

  -- Not more tokens than the capacity, which is the given one.
  pub IsCapped : W → TokenBucket W → Type 0
  IsCapped c b = (b.capacity ≡ c) × (gt b.tokens c ≡ false)

  -- The capacity that the constructor sets.
  abbrev pub capacity_of : W → Option W → W
  capacity_of rate none = fmax (lit 1 0) rate
  capacity_of rate (some b) = b

  -- A wait that a round ends with: from nothing to a twentieth of a second.
  IsShort : Turn W → Type 0
  IsShort (sleep t) = (gt t (lit 5 2) ≡ false) × (lt t nil ≡ false)
  IsShort _ = Unit

  module _ (laws : IsOrdered W) where
    irreflexive : (x : W) → lt x x ≡ false
    irreflexive x = elim (Bool-cases (lt x x)) [ inl e ↦ laws.lt_asym x x e | inr e ↦ e ]

    fmin-le : (c x : W) → gt (fmin c x) c ≡ false
    fmin-le c x = ground (arith, laws.lt_asym x c, laws.lt_asym c c)

    refill_locked-IsCapped :
        (elapsed c : W) (b : TokenBucket W) → IsCapped c b → IsCapped c (refill_locked elapsed b)
    unfolding refill_locked IsCapped
    refill_locked-IsCapped elapsed c b (same, h) = elim (Bool-cases (gt elapsed nil)) [
      | inl e ↦ simp e (same, rw same (fmin-le c _))
      | inr e ↦ simp e (same, h)
    ]

    try_acquire-IsCapped :
        (elapsed n c : W) (low : Bool) (b : TokenBucket W)
        → lt n nil ≡ false
        → IsCapped c b
        → IsCapped c (try_acquire elapsed n low b).1
    unfolding try_acquire count_locked IsCapped
    try_acquire-IsCapped elapsed n c low b calm h =
        let r = refill_locked elapsed b in
        let kept = refill_locked-IsCapped elapsed c b h in
        elim (Bool-cases (ge r.tokens (n ⊕ (if low then b.reserve else nil)))) [
          | inl e ↦ simp e (kept.0, laws.minus_le r.tokens n c calm kept.1)
          | inr e ↦ simp e kept
        ]

    tries-IsCapped :
        (ts : List (Try W)) (c : W) (b : TokenBucket W)
        → All IsCalm ts
        → IsCapped c b
        → IsCapped c (tries ts b)
    unfolding tries IsCalm
    tries-IsCapped [] c b calm h = h
    tries-IsCapped (t ∷ ts) c b (calm, calms) h =
        tries-IsCapped ts c _ calms (try_acquire-IsCapped t.elapsed t.n c t.low_priority b calm h)

    -- After any requests of no negative number of tokens, a bucket has the capacity that it was
    -- made with, and never more tokens; the subtraction and the order of doubles keep the named
    -- laws.
    pub tries-new_bucket :
        (ts : List (Try W)) (rate reserve : W) (burst : Option W)
        → All IsCalm ts
        → IsCapped (capacity_of rate burst) (tries ts (new_bucket rate burst reserve))
    unfolding new_bucket IsCapped
    tries-new_bucket ts rate reserve none calm = tries-IsCapped ts _ _ calm (refl, irreflexive _)
    tries-new_bucket ts rate reserve (some b) calm =
        tries-IsCapped ts _ _ calm (refl, irreflexive _)

    module _ (some_time : lt {W = W} (lit 5 2) nil ≡ false) where
      clipped-IsShort : (t : W) → IsShort (sleep (fmin (fmax t nil) (lit 5 2)))
      unfolding IsShort
      clipped-IsShort t = ground (
        arith,
        laws.lt_asym t nil,
        laws.lt_asym nil nil,
        laws.lt_asym (lit 5 2) nil,
        laws.lt_asym t (lit 5 2),
        laws.lt_asym nil (lit 5 2),
        laws.lt_asym (lit 5 2) (lit 5 2),
        some_time,
      )

      wait_of-IsShort : (remaining : Option W) (wait : W) → IsShort (wait_of remaining wait)
      unfolding wait_of IsShort
      wait_of-IsShort none wait = clipped-IsShort wait
      wait_of-IsShort (some r) wait = elim (Bool-cases (le r nil)) [
        | inl e ↦ rw e tt
        | inr e ↦ rw e (clipped-IsShort _)
      ]

      -- Each sleep of a blocking request lasts from nothing to a twentieth of a second.
      acquire_round-IsShort :
          (elapsed n : W) (low : Bool) (remaining : Option W) (b : TokenBucket W)
          → IsShort (acquire_round elapsed n low remaining b).0
      unfolding acquire_round IsShort
      acquire_round-IsShort elapsed n low remaining b =
          elim (Bool-cases (try_acquire elapsed n low b).0) [
            | inl e ↦ simp e tt
            | inr e ↦ simp e (wait_of-IsShort remaining _)
          ]
