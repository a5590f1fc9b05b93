-- ===== src/Env.antt =====
-- cpp/include/pmm/env.hpp: the reading of environment variables. A value has no zero byte; `std::stod`
-- and the cast of a `double` that fits into an `int` are parameters.
use polymarket_live_maker.Prelude.{
  Bool, Bytes, Double, Option, [], ge, if◌then◌else◌, is_empty, le, leb, length, lit, neg, none,
  not, same_str, some, ℕ, ℤ, ◌&&◌, ◌==◌, ◌>>=◌, ◌||◌, ◌∷◌,
}

abbrev is_space : ℕ → Bool
is_space c = c == 32 || (leb 9 c && leb c 13)

unfoldable pub drop_spaces : Bytes → Bytes
drop_spaces [] = []
drop_spaces (c ∷ cs) = if is_space c then drop_spaces cs else c ∷ cs

unfoldable pub drop_last_spaces : Bytes → Bytes
drop_last_spaces [] = []
drop_last_spaces (c ∷ cs) =
    let rest = drop_last_spaces cs in if is_space c && is_empty rest then [] else c ∷ rest

unfoldable pub strip : Bytes → Bytes
unfolding drop_spaces drop_last_spaces
strip s = drop_last_spaces (drop_spaces s)

module _ (getenv : Bytes → Option Bytes) where
  unfoldable pub str : Bytes → Bytes → Bytes
  str name def = elim (getenv name) [ none ↦ def | some v ↦ v ]

  unfoldable pub flag_eq : Bytes → Bytes → Bytes → Bool
  unfolding str
  flag_eq name want def = same_str (strip (str name def)) want

  unfoldable pub flag_ne : Bytes → Bytes → Bytes → Bool
  unfolding str
  flag_ne name nope def = not (same_str (strip (str name def)) nope)

  module _ {W : Type 0} ⦃d : Double W⦄ (stod : Bytes → Option (W × ℕ)) where
    -- A number up to the end of the text.
    unfoldable pub parse_full : Bytes → Option W
    parse_full v =
        let s = strip v in
        if is_empty s
        then none
        else (stod s >>= λ (r : W × ℕ). if r.1 == length s then some r.0 else none)

    unfoldable pub f : Bytes → W → W
    unfolding parse_full
    f name def = elim (getenv name >>= parse_full) [ none ↦ def | some x ↦ x ]

    unfoldable pub i : (W → ℤ) → Bytes → ℤ → ℤ
    unfolding parse_full
    i to_int name def = elim (getenv name >>= parse_full) [
      | none ↦ def
      | some x ↦
          if ge x (lit 2147483647 0)
          then ℤ.pos 2147483647
          else if le x (neg (lit 2147483648 0))
          then ℤ.negsuc 2147483647
          else to_int x
    ]
