-- ===== src/JsonUtil.antt =====
-- cpp/include/pmm/jsonutil.hpp: reading values of the JSON library, which is a parameter.
use polymarket_live_maker.Prelude.{
  Bool, Bytes, Double, List, Option, [], codes, false, find, if◌then◌else◌, is_empty, le, leb, lt,
  map, nil, none, not, same_str, some, true, ◌&&◌, ◌+◌, ◌>>=◌, ◌||◌,
}

-- What the code asks of a value `J`, with `std::stod`, whose exceptions are `none`.
pub record JsonLib (J W : Type 0) : Type 0 where
  pub parse : Bytes → Option J
  pub dump : J → Bytes
  pub is_null : J → Bool
  pub as_boolean : J → Option Bool
  pub as_number : J → Option W
  pub as_string : J → Option Bytes
  pub as_array : J → Option (List J)
  -- The members of an object, by their keys.
  pub as_object : J → Option (List (Bytes × J))
  pub empty_array : J
  pub stod : Bytes → Option W

module _ {J W : Type 0} ⦃d : Double W⦄ (lib : JsonLib J W) where
  unfoldable pub to_double : J → W
  to_double v = elim (lib.as_number v) [
    | some x ↦ x
    | none ↦ elim (lib.as_string v >>= lib.stod) [ none ↦ nil | some x ↦ x ]
  ]

  unfoldable pub to_str : J → Bytes
  to_str v = elim (lib.as_string v) [ some s ↦ s | none ↦ if lib.is_null v then [] else lib.dump v ]

  abbrev is_some {ℓ} : {A : Type ℓ} → Option A → Bool
  is_some none = false
  is_some (some a) = true

  unfoldable pub py_bool : J → Bool
  py_bool v = elim (lib.as_boolean v) [
    | some b ↦ b
    | none ↦ elim (lib.as_string v) [
      | some s ↦ not (is_empty s)
      | none ↦ elim (lib.as_number v) [
        | some x ↦ lt x nil || lt nil x || not (le x nil || le nil x)
        | none ↦ elim (lib.as_array v) [
          | some xs ↦ not (is_empty xs)
          | none ↦ elim (lib.as_object v) [ some m ↦ not (is_empty m) | none ↦ false ]
        ]
      ]
    ]
  ]

  unfoldable pub str_bool : J → Bool
  unfolding py_bool
  str_bool v = elim (lib.as_string v) [
    | some s ↦ same_str (map (λ c. if leb b'A' c && leb c b'Z' then c + 32 else c) s) (codes "true")
    | none ↦ py_bool v
  ]

  -- A member that is there hides the second key, also if it is null.
  unfoldable pub find2 : J → Bytes → Option Bytes → Option J
  find2 j a b = elim (lib.as_object j) [
    | none ↦ none
    | some m ↦ elim (find a m) [
      | some v ↦ if lib.is_null v then none else some v
      | none ↦ elim (b >>= λ k. find k m) [
        | some v ↦ if lib.is_null v then none else some v
        | none ↦ none
      ]
    ]
  ]

  unfoldable pub member : J → Bytes → Option J
  unfolding find2
  member j a = find2 j a none

  unfoldable pub as_container : J → J
  as_container v = elim (lib.as_string v) [
    | some s ↦ elim (lib.parse s) [ some j ↦ j | none ↦ lib.empty_array ]
    | none ↦ if is_some (lib.as_array v) || is_some (lib.as_object v) then v else lib.empty_array
  ]

  -- `find(j, k) ? to_str(*find(j, k)) : ""`, and the same for a number.
  unfoldable pub member_str : J → Bytes → Bytes
  unfolding to_str member
  member_str j k = elim (member j k) [ none ↦ [] | some v ↦ to_str v ]

  unfoldable pub member_double : J → Bytes → W
  unfolding to_double member
  member_double j k = elim (member j k) [ none ↦ nil | some v ↦ to_double v ]
