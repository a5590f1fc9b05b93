-- ===== src/Prelude/Doubles.antt =====
-- All that the code does with a `double`. The comparisons are those of C++, false on NaN; a literal
-- is its digits and the place of its point: `lit 5 1` stands for 0.5.
use Prim.Native.Nat.{ℕ, ◌+◌, ◌-◌, ◌*◌, ◌/◌, ◌^◌}
use mathlib.Core.Bool.{Bool}
use polymarket_live_maker.Prelude.Tests.{ltb, leb, if◌then◌else◌}

pub record Double {ℓ} (W : Type ℓ) : Type ℓ where
  pub literal : ℕ → ℕ → W
  pub plus : W → W → W
  pub minus : W → W → W
  pub times : W → W → W
  pub over : W → W → W
  pub magnitude : W → W
  pub down : W → W
  pub up : W → W
  pub nearest : W → W
  pub nearest_even : W → W
  pub opposite : W → W
  pub less : W → W → Bool
  pub at_most : W → W → Bool

infixl 60 ◌⊕◌
infixl 60 ◌⊖◌
infixl 70 ◌⊗◌
infixl 70 ◌⊘◌
module _ {ℓ} {W : Type ℓ} ⦃d : Double W⦄ where
  abbrev pub lit : ℕ → ℕ → W
  lit = d.literal

  abbrev pub nil : W
  nil = d.literal 0 0

  abbrev pub ◌⊕◌ : W → W → W
  ◌⊕◌ = d.plus

  abbrev pub ◌⊖◌ : W → W → W
  ◌⊖◌ = d.minus

  abbrev pub ◌⊗◌ : W → W → W
  ◌⊗◌ = d.times

  abbrev pub ◌⊘◌ : W → W → W
  ◌⊘◌ = d.over

  -- `std::abs`, `std::floor`, `std::ceil`, `std::round`.
  abbrev pub fabs : W → W
  fabs = d.magnitude

  abbrev pub floor : W → W
  floor = d.down

  abbrev pub ceil : W → W
  ceil = d.up

  abbrev pub round : W → W
  round = d.nearest

  -- `std::nearbyint` in the default mode, and the unary minus.
  abbrev pub nearbyint : W → W
  nearbyint = d.nearest_even

  abbrev pub neg : W → W
  neg = d.opposite

  -- `a < b`, `a > b`, `a <= b`, `a >= b`.
  abbrev pub lt : W → W → Bool
  lt = d.less

  abbrev pub gt : W → W → Bool
  gt a b = d.less b a

  abbrev pub le : W → W → Bool
  le = d.at_most

  abbrev pub ge : W → W → Bool
  ge a b = d.at_most b a

  -- `std::max` and `std::min`, with their order of the two arguments.
  abbrev pub fmax : W → W → W
  fmax a b = if lt a b then b else a

  abbrev pub fmin : W → W → W
  fmin a b = if lt b a then b else a

-- Whole billionths from 0 on, where nothing goes below 0, for runs at concrete inputs.
abbrev pub Nanos : Type 0
Nanos = ℕ

abbrev pub nano : ℕ
nano = 1000000000

instance abbrev pub nanos_double : Double Nanos
nanos_double = record {
  literal = λ m e. m * nano / 10 ^ e;
  plus = ◌+◌;
  minus = ◌-◌;
  times = λ a b. a * b / nano;
  over = λ a b. a * nano / b;
  magnitude = λ a. a;
  down = λ a. a / nano * nano;
  up = λ a. (a + (nano - 1)) / nano * nano;
  nearest = λ a. (a + nano / 2) / nano * nano;
  nearest_even = λ a. (a + nano / 2) / nano * nano;
  opposite = λ a. 0;
  less = ltb;
  at_most = leb;
}
