-- ===== src/Prelude/ByteStrings.antt =====
-- Byte strings as lists of numbers, their big-endian value, and bit operations on one byte.
use Prim.Native.Nat.{ℕ, zero, suc, ◌+◌, ◌*◌, ◌^◌, ◌<◌}
use Prim.Native.Char.{code}
use Prim.Native.String.{String}
use mathlib.Core.Path.{◌≡◌, refl, sym, ap, ◌∙◌}
use mathlib.Core.Bool.{Bool, true, false}
use polymarket_live_maker.Prelude.Tests.{if◌then◌else◌}
use mathlib.Core.List.{List, [], ◌∷◌, ◌++◌, append_assoc, append-nil}
use mathlib.Core.Option.{some, some-injective}
use native.Mathlib.Omega.{arith}
use polymarket_live_maker.Prelude.Lists.{
  drop-drop_append, All, length, take, drop, take-append, drop-append, length-append, get_elem?,
}

abbrev pub Bytes : Type 0
Bytes = List ℕ

abbrev pub IsByte : ℕ → Type 0
IsByte b = b < 256

abbrev pub IsBytes : Bytes → Type 0
IsBytes = All IsByte

-- `uint64_t` values, and byte strings whose `size()` is one.
abbrev pub IsU64 : ℕ → Type 0
IsU64 v = v < 2 ^ 64

-- The characters of a text: its bytes, if it is ASCII.
abbrev pub codes : String → Bytes
codes String.[] = []
codes (String.◌∷◌ c s) = code c ∷ codes s

-- The big-endian number of a byte string, after what `acc` holds already.
unfoldable pub be_from : ℕ → Bytes → ℕ
be_from acc [] = acc
be_from acc (b ∷ bs) = be_from (acc * 256 + b) bs

abbrev pub be_value : Bytes → ℕ
be_value = be_from 0

pub be_from-append :
    (acc : ℕ) (xs ys : Bytes) → be_from acc (xs ++ ys) ≡ be_from (be_from acc xs) ys
unfolding be_from
be_from-append acc [] ys = refl
be_from-append acc (x ∷ xs) ys = be_from-append (acc * 256 + x) xs ys

-- Over a small range a law is checked at every value.
unfoldable pub all_below : ℕ → (ℕ → Bool) → Bool
all_below zero test = true
all_below (suc top) test = if test top then all_below top test else false

pub all_below_sound : (test : ℕ → Bool) (k n : ℕ) → k < n → all_below n test ≡ true → test k ≡ true
unfolding all_below
all_below_sound test k zero less every = absurd (omega arith)
all_below_sound test k (suc top) less every = ground (arith, all_below_sound test k top)

-- The parts of a buffer, one after another.
unfoldable pub concat : List Bytes → Bytes
concat [] = []
concat (it ∷ items) = it ++ concat items

-- `n` bytes from the offset `off` on.
abbrev pub slice : ℕ → ℕ → Bytes → Bytes
slice off n bs = take n (drop off bs)

pub slice-append :
    (off n : ℕ) (xs ys zs : Bytes)
    → length xs ≡ off
    → length ys ≡ n
    → slice off n (xs ++ (ys ++ zs)) ≡ ys
slice-append off n xs ys zs hx hy = rw (drop-append off xs (ys ++ zs) hx) (take-append n ys zs hy)

abbrev pub HasLength : ℕ → Bytes → Type 0
HasLength n bs = length bs ≡ n

-- Buffers that are cut into parts of the same lengths agree part by part.
pub concat-injective :
    (n : ℕ) (xs ys : List Bytes)
    → All (HasLength n) xs
    → All (HasLength n) ys
    → length xs ≡ length ys
    → concat xs ≡ concat ys
    → xs ≡ ys
unfolding concat
concat-injective n [] [] hx hy l e = refl
concat-injective n [] (y ∷ ys) hx hy l e = absurd (omega arith)
concat-injective n (x ∷ xs) [] hx hy l e = absurd (omega arith)
concat-injective n (x ∷ xs) (y ∷ ys) (hx, hxs) (hy, hys) l e =
    let heads : x ≡ y =
      sym (take-append n x (concat xs) hx) ∙ ap (take n) e ∙ take-append n y (concat ys) hy in
    let tails : concat xs ≡ concat ys =
      sym (drop-append n x (concat xs) hx) ∙ ap (drop n) e ∙ drop-append n y (concat ys) hy in
    cc (heads, concat-injective n xs ys hxs hys (omega arith) tails)

pub length-concat :
    (n : ℕ) (xs : List Bytes) → All (HasLength n) xs → length (concat xs) ≡ n * length xs
unfolding concat
length-concat n [] h = omega arith
length-concat n (x ∷ xs) (h, hs) = omega (arith, length-append x (concat xs), length-concat n xs hs)

-- The part at index `i` of a buffer that begins with parts of `n` bytes.
pub slice-concat_append :
    (n i : ℕ) (xs : List Bytes) (rest : Bytes) {x : Bytes}
    → All (HasLength n) xs
    → get_elem? xs i ≡ some x
    → slice (n * i) n (concat xs ++ rest) ≡ x
unfolding concat
slice-concat_append n i [] rest h e = absurd (ground arith)
slice-concat_append n zero (x ∷ xs) rest (h, hs) e =
    let start : n * 0 ≡ 0 = omega arith in
    rw (start, append_assoc) (take-append n x (concat xs ++ rest) h ∙ some-injective _ _ e)
slice-concat_append n (suc i) (x ∷ xs) rest (h, hs) e =
    let step : n * suc i ≡ n + n * i = omega arith in
    rw (append_assoc, step, drop-drop_append n (n * i) x (concat xs ++ rest) h)
      (slice-concat_append n i xs rest hs e)

pub slice-concat :
    (n i : ℕ) (xs : List Bytes) {x : Bytes}
    → All (HasLength n) xs
    → get_elem? xs i ≡ some x
    → slice (n * i) n (concat xs) ≡ x
slice-concat n i xs h e = rw append-nil at (slice-concat_append n i xs [] h e)

pub concat-append : (xs ys : List Bytes) → concat (xs ++ ys) ≡ concat xs ++ concat ys
unfolding concat
concat-append [] ys = refl
concat-append (x ∷ xs) ys = rw (append_assoc, concat-append xs ys)

pub concat-cons : (x : Bytes) (xs : List Bytes) → concat (x ∷ xs) ≡ x ++ concat xs
unfolding concat
concat-cons x xs = refl
