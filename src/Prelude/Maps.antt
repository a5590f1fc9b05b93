-- ===== src/Prelude/Maps.antt =====
-- `std::map<std::string, V>`: the entries in the order of their keys.
use Prim.Native.Nat.{suc, ◌≤◌}
use mathlib.Core.Path.{◌≡◌, refl, sym, ap, ◌∙◌, subst}
use mathlib.Core.Logic.{inl, inr}
use mathlib.Core.Bool.{Bool, true, false, ◌&&◌, ◌||◌}
use mathlib.Core.List.{List, [], ◌∷◌}
use mathlib.Core.Option.{Option, none, some, some-injective}
use native.Mathlib.Omega.{arith}
use polymarket_live_maker.Prelude.Tests.{ltb, ◌==◌, if◌then◌else◌, Bool-cases, if_true, if_false}
use polymarket_live_maker.Prelude.Lists.{length}
use polymarket_live_maker.Prelude.ByteStrings.{Bytes}

-- `==` and `<` of strings: byte by byte.
unfoldable pub same_str : Bytes → Bytes → Bool
same_str [] [] = true
same_str [] (y ∷ ys) = false
same_str (x ∷ xs) [] = false
same_str (x ∷ xs) (y ∷ ys) = x == y && same_str xs ys

unfoldable pub str_lt : Bytes → Bytes → Bool
str_lt xs [] = false
str_lt [] (y ∷ ys) = true
str_lt (x ∷ xs) (y ∷ ys) = ltb x y || (x == y && str_lt xs ys)

pub same_str_sound : (xs ys : Bytes) → same_str xs ys ≡ true → xs ≡ ys
unfolding same_str
same_str_sound [] [] h = refl
same_str_sound [] (y ∷ ys) h = cc
same_str_sound (x ∷ xs) [] h = cc
same_str_sound (x ∷ xs) (y ∷ ys) h =
    let e : x ≡ y = ground arith in
    let es : xs ≡ ys = same_str_sound xs ys (ground arith) in rw (e, es) refl

pub same_str_refl : (xs : Bytes) → same_str xs xs ≡ true
unfolding same_str
same_str_refl [] = refl
same_str_refl (x ∷ xs) = ground (arith, same_str_refl xs)

pub same_str_sym : (xs ys : Bytes) → same_str xs ys ≡ same_str ys xs
unfolding same_str
same_str_sym [] [] = refl
same_str_sym [] (y ∷ ys) = refl
same_str_sym (x ∷ xs) [] = refl
same_str_sym (x ∷ xs) (y ∷ ys) = ground (arith, same_str_sym xs ys)

module _ {ℓ} {V : Type ℓ} where
  unfoldable pub find : Bytes → List (Bytes × V) → Option V
  find k [] = none
  find k ((l, w) ∷ m) = if same_str k l then some w else find k m

  -- `m[k]` where the default of V is `v`.
  abbrev pub find_or : V → Bytes → List (Bytes × V) → V
  find_or v k m = elim (find k m) [ none ↦ v | some w ↦ w ]

  -- `m[k] = v`.
  unfoldable pub put : Bytes → V → List (Bytes × V) → List (Bytes × V)
  put k v [] = (k, v) ∷ []
  put k v ((l, w) ∷ m) =
      if same_str k l
      then (k, v) ∷ m
      else if str_lt k l
      then (k, v) ∷ (l, w) ∷ m
      else (l, w) ∷ put k v m

  pub find-put :
      (k l : Bytes) (v : V) (m : List (Bytes × V))
      → find l (put k v m) ≡ (if same_str l k then some v else find l m)
  unfolding find put
  find-put k l v [] = refl
  find-put k l v ((j, w) ∷ m) = elim (Bool-cases (same_str k j)) [
    | inl e ↦ let same : k ≡ j = same_str_sound k j e in ground (arith, same)
    | inr e ↦ elim (Bool-cases (str_lt k j)) [
      | inl o ↦ ground arith
      | inr o ↦ elim (Bool-cases (same_str l k)) [
        | inl s ↦ let same : l ≡ k = same_str_sound l k s in ground (arith, find-put k l v m, same)
        | inr s ↦ ground (arith, find-put k l v m)
      ]
    ]
  ]

  pub length-put-le :
      (k : Bytes) (v : V) (m : List (Bytes × V)) → length (put k v m) ≤ suc (length m)
  unfolding put
  length-put-le k v [] = omega arith
  length-put-le k v ((l, w) ∷ m) = ground (arith, length-put-le k v m)

  -- What holds of each entry that can be found.
  abbrev pub Each {κ} : (Bytes → V → Type κ) → List (Bytes × V) → Type (ℓ ⊔ κ)
  Each P m = (l : Bytes) (w : V) → find l m ≡ some w → P l w

  pub Each-put {κ} :
      (P : Bytes → V → Type κ) (k : Bytes) (v : V) (m : List (Bytes × V))
      → P k v
      → Each P m
      → Each P (put k v m)
  Each-put P k v m h hs l w found =
      let look = sym (find-put k l v m) ∙ found in
      elim (Bool-cases (same_str l k)) [
        | inl e ↦
            let got : v ≡ w = some-injective v w (sym (if_true _ _ _ e) ∙ look) in
            subst (P l) got (subst (λ j. P j v) (sym (same_str_sound l k e)) h)
        | inr e ↦ hs l w (sym (if_false _ _ _ e) ∙ look)
      ]

  -- `m.erase(k)`.
  unfoldable pub erase : Bytes → List (Bytes × V) → List (Bytes × V)
  erase k [] = []
  erase k ((l, w) ∷ m) = let rest = erase k m in if same_str k l then rest else (l, w) ∷ rest

  pub find-erase :
      (k l : Bytes) (m : List (Bytes × V))
      → find l (erase k m) ≡ (if same_str l k then none else find l m)
  unfolding find erase
  find-erase k l [] = elim (Bool-cases (same_str l k)) [ inl e ↦ rw e refl | inr e ↦ rw e refl ]
  find-erase k l ((j, w) ∷ m) = elim (Bool-cases (same_str k j)) [
    | inl e ↦ let same : k ≡ j = same_str_sound k j e in ground (arith, find-erase k l m, same)
    | inr e ↦ elim (Bool-cases (same_str l k)) [
      | inl s ↦ let same : l ≡ k = same_str_sound l k s in ground (arith, find-erase k l m, same)
      | inr s ↦ ground (arith, find-erase k l m)
    ]
  ]

-- `std::set<std::string>`: the map of its members.
abbrev pub StringSet : Type 0
StringSet = List {0} (Bytes × Unit)

abbrev is_there : Option {0} Unit → Bool
is_there none = false
is_there (some u) = true

abbrev pub contains : Bytes → StringSet → Bool
contains k s = is_there (find k s)

is_there-put :
    (b : Bool) (o : Option Unit) → is_there (if b then some tt else o) ≡ (b || is_there o)
is_there-put true o = refl
is_there-put false o = refl

is_there-erase :
    (b : Bool) (o : Option Unit)
    → is_there (if b then none else o) ≡ (if b then false else is_there o)
is_there-erase true o = refl
is_there-erase false o = refl

pub contains-put :
    (k l : Bytes) (s : StringSet) → contains l (put k tt s) ≡ (same_str l k || contains l s)
contains-put k l s = ap is_there (find-put k l tt s) ∙ is_there-put (same_str l k) (find l s)

pub contains-erase :
    (k l : Bytes) (s : StringSet)
    → contains l (erase k s) ≡ (if same_str l k then false else contains l s)
contains-erase k l s = ap is_there (find-erase k l s) ∙ is_there-erase (same_str l k) (find l s)
