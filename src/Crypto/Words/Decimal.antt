-- ===== src/Crypto/Words/Decimal.antt =====
-- U256FromDecimal reads exactly the decimal numerals below 2 ^ 256, to their value.
use polymarket_live_maker.Prelude.{
  All, Bool-cases, Bytes, IsBytes, [], ap, arith, be_from, be_value, if◌then◌else◌, inl, inr,
  length, lt, none, refl, some, true, ℕ, ◌*◌, ◌+◌, ◌-◌, ◌<◌, ◌==◌, ◌^◌, ◌↔◌, ◌∙◌, ◌∷◌, ◌≡◌, ◌≢◌,
  ◌≤◌,
}
use polymarket_live_maker.Crypto.Words.{
  zero32, times_ten, is_digit, decimal_loop, u256_from_decimal,
}
use polymarket_live_maker.Crypto.Words.Laws.{
  length-times_ten, be_value-times_ten, times_ten-IsBytes,
}

-- The number that a string of digits spells, after what `acc` holds already.
unfoldable pub digits_value : ℕ → Bytes → ℕ
digits_value acc [] = acc
digits_value acc (c ∷ cs) = digits_value (10 * acc + (c - b'0')) cs

abbrev pub IsDigit : ℕ → Type 0
IsDigit c = (b'0' ≤ c) × (c ≤ b'9')

le-digits_value : (acc : ℕ) (cs : Bytes) → acc ≤ digits_value acc cs
unfolding digits_value
le-digits_value acc [] = omega arith
le-digits_value acc (c ∷ cs) = omega (arith, le-digits_value (10 * acc + (c - b'0')) cs)

abbrev IsWord : Bytes → Type 0
IsWord w = (length w ≡ 32) × IsBytes w

-- What `decimal_loop` answers, whichever branch it takes.
abbrev Read : Bytes → Bytes → Bytes → Type 0
Read cs out r =
    All IsDigit cs × (be_value r ≡ digits_value (be_value out) cs) × (length r ≡ 32) × IsBytes r

module _ (c : ℕ) (cs out : Bytes) where
  next : Bytes
  next = (times_ten out (c - b'0')).0

  carry : ℕ
  carry = (times_ten out (c - b'0')).1

  decimal_loop_step :
      decimal_loop (c ∷ cs) out
      ≡ (if is_digit c then (if carry == 0 then decimal_loop cs next else none) else none)
  unfolding decimal_loop next carry
  decimal_loop_step = refl

  next_value : length out ≡ 32 → carry * 2 ^ 256 + be_value next ≡ 10 * be_value out + (c - b'0')
  unfolding next carry
  next_value h = rw h at (be_value-times_ten out (c - b'0'))

  length-next : length next ≡ length out
  unfolding next
  length-next = length-times_ten out (c - b'0')

  next-IsBytes : IsBytes next
  unfolding next
  next-IsBytes = times_ten-IsBytes out (c - b'0')

is_digit_iff : (c : ℕ) → (is_digit c ≡ true) ↔ IsDigit c
unfolding is_digit
is_digit_iff c = ground arith

-- Without a carry the next number is exact.
next_exact :
    (c : ℕ) (cs out : Bytes)
    → length out ≡ 32
    → carry c cs out ≡ 0
    → be_value (next c cs out) ≡ 10 * be_value out + (c - b'0')
next_exact c cs out h fits = omega (arith, next_value c cs out h)

digits_step :
    (c : ℕ) (cs : Bytes) (acc : ℕ)
    → digits_value (10 * acc + (c - b'0')) cs ≡ digits_value acc (c ∷ cs)
unfolding digits_value
digits_step c cs acc = refl

decimal_loop_sound :
    (cs out r : Bytes)
    → length out ≡ 32
    → IsBytes out
    → decimal_loop cs out ≡ some r
    → Read cs out r
decimal_loop_sound [] out r hl hb e = unfold decimal_loop digits_value in ground arith
decimal_loop_sound (c ∷ cs) out r hl hb e = elim (Bool-cases (is_digit c)) [
  | inr bad ↦ ground (arith, decimal_loop_step c cs out)
  | inl digit ↦ elim (Bool-cases (carry c cs out == 0)) [
    | inr big ↦ ground (arith, decimal_loop_step c cs out)
    | inl fits ↦
        let rest =
          decimal_loop_sound cs (next c cs out) r (length-next c cs out ∙ hl)
            (next-IsBytes c cs out) (ground (arith, decimal_loop_step c cs out)) in
        let exact = next_exact c cs out hl (ground arith) in
        (
          ((is_digit_iff c).0 digit, rest.0),
          rest.1 ∙ ap (λ a. digits_value a cs) exact ∙ digits_step c cs (be_value out),
          rest.2,
          rest.3,
        )
  ]
]

decimal_loop_complete :
    (cs out : Bytes)
    → length out ≡ 32
    → All IsDigit cs
    → digits_value (be_value out) cs < 2 ^ 256
    → (r : Bytes) × (decimal_loop cs out ≡ some r)
decimal_loop_complete [] out hl h lt = (out, unfold decimal_loop in refl)
decimal_loop_complete (c ∷ cs) out hl (h, hs) lt =
    let acc : ℕ = 10 * be_value out + (c - b'0') in
    let below : digits_value acc cs < 2 ^ 256 = unfold digits_value in lt in
    let small : carry c cs out ≡ 0 =
      omega (arith, next_value c cs out hl, le-digits_value acc cs) in
    let exact = next_exact c cs out hl small in
    let (r, e) =
      decimal_loop_complete cs (next c cs out) (length-next c cs out ∙ hl) hs (rw exact below) in
    (r, ground (arith, decimal_loop_step c cs out, is_digit_iff c))

-- An accepted decimal numeral is a nonempty string of digits, and the result is a word of 32 bytes
-- with its value: nothing is cut off.
pub u256_from_decimal_sound :
    (cs r : Bytes)
    → u256_from_decimal cs ≡ some r
    → (cs ≢ []) × All IsDigit cs × (be_value r ≡ digits_value 0 cs) × (length r ≡ 32) × IsBytes r
unfolding u256_from_decimal be_from
u256_from_decimal_sound [] r e = cc
u256_from_decimal_sound (c ∷ cs) r e =
    let (digits, value, len, bytes) = decimal_loop_sound (c ∷ cs) zero32 r refl (omega arith) e in
    (λ z. cc, digits, value, len, bytes)

-- Every nonempty string of digits whose value is below 2 ^ 256 is accepted, and read to its value.
pub u256_from_decimal_total :
    (cs : Bytes)
    → cs ≢ []
    → All IsDigit cs
    → digits_value 0 cs < 2 ^ 256
    → (r : Bytes) × (u256_from_decimal cs ≡ some r) × (be_value r ≡ digits_value 0 cs)
unfolding be_from
u256_from_decimal_total [] ne h lt = absurd (ne refl)
u256_from_decimal_total (c ∷ cs) ne h lt =
    let (r, e) = decimal_loop_complete (c ∷ cs) zero32 refl h lt in
    let found : u256_from_decimal (c ∷ cs) ≡ some r = unfold u256_from_decimal in e in
    (r, found, (u256_from_decimal_sound (c ∷ cs) r found).2)
