-- ===== src/Chain/Rpc/Quantity.antt =====
-- What a quantity of the RPC is read as: its value in `uint64_t`, where what is above is lost.
use polymarket_live_maker.Prelude.{
  All, Bool-cases, Bytes, IsU64, Option, Option-cases, [], arith, bit_or, bit_or-digit, false,
  get_or, inl, inr, none, refl, some, ℕ, ◌%◌, ◌*◌, ◌+◌, ◌<◌, ◌==◌, ◌>>=◌, ◌^◌, ◌∙◌, ◌∷◌, ◌≡◌,
}
use mathlib.Core.Option
use polymarket_live_maker.Crypto.Hex.{hex_val, strip_zx}
use polymarket_live_maker.Chain.Rpc.{hex_qty_loop, parse_hex_qty, digits_at}

-- The number of a hex numeral after what `acc` holds, whatever its size.
unfoldable pub hex_number : ℕ → Bytes → Option ℕ
hex_number acc [] = some acc
hex_number acc (c ∷ cs) = hex_val c >>= λ x. hex_number (acc * 16 + x) cs

-- A character of a C string.
unfoldable pub IsChar : ℕ → Type 0
IsChar c = (c == 0) ≡ false

hex_val-lt : (c x : ℕ) → hex_val c ≡ some x → x < 16
unfolding hex_val
hex_val-lt c x h = ground arith

hex_qty_loop-mod :
    (cs : Bytes) (acc : ℕ)
    → All IsChar cs
    → hex_qty_loop cs (acc % 2 ^ 64) ≡ Option.map (λ v. v % 2 ^ 64) (hex_number acc cs)
unfolding hex_qty_loop hex_number IsChar
hex_qty_loop-mod [] acc h = refl
hex_qty_loop-mod (c ∷ cs) acc (h, hs) = elim (Option-cases (hex_val c)) [
  | inl e ↦ rw (h, e) refl
  | inr (x, e) ↦
      let small = hex_val-lt c x e in
      let digit : bit_or (acc % 2 ^ 64 * 16 % 2 ^ 64) x ≡ (acc * 16 + x) % 2 ^ 64 =
        bit_or-digit (acc % 2 ^ 64 * 16 % 2 ^ 64) x (omega arith) small ∙ omega arith in
      rw (h, e, digit) (hex_qty_loop-mod cs (acc * 16 + x) hs)
]

strip_zx_prefix : (c : ℕ) (cs : Bytes) → strip_zx (b'0' ∷ b'x' ∷ c ∷ cs) ≡ c ∷ cs
unfolding strip_zx
strip_zx_prefix c cs = ground arith

digits_at_first :
    (c : ℕ) (cs : Bytes) → (c == 0) ≡ false → digits_at (c ∷ cs) ≡ hex_qty_loop (c ∷ cs) 0
unfolding digits_at
digits_at_first c cs h = rw h refl

-- A hex quantity with its prefix, of at least one character and no zero byte, is read as the value
-- of its digits modulo 2 ^ 64, and refused exactly if a character is no digit.
pub parse_hex_qty_value :
    (c : ℕ) (cs : Bytes)
    → All IsChar (c ∷ cs)
    → parse_hex_qty (b'0' ∷ b'x' ∷ c ∷ cs) ≡ Option.map (λ v. v % 2 ^ 64) (hex_number 0 (c ∷ cs))
unfolding parse_hex_qty IsChar
parse_hex_qty_value c cs h =
    rw (strip_zx_prefix c cs, digits_at_first c cs h.0) (hex_qty_loop-mod (c ∷ cs) 0 h)

pub IsRead : Option ℕ → Type 0
IsRead none = Unit
IsRead (some v) = IsU64 v

hex_qty_loop-IsRead : (cs : Bytes) (v : ℕ) → IsU64 v → IsRead (hex_qty_loop cs v)
unfolding hex_qty_loop IsRead
hex_qty_loop-IsRead [] v h = h
hex_qty_loop-IsRead (c ∷ cs) v h = elim (Bool-cases (c == 0)) [
  | inl z ↦ rw z h
  | inr z ↦ elim (Option-cases (hex_val c)) [
    | inl e ↦ rw (z, e) tt
    | inr (x, e) ↦
        let small = hex_val-lt c x e in
        let digit = bit_or-digit (v * 16 % 2 ^ 64) x (omega arith) small in
        rw (z, e) (hex_qty_loop-IsRead cs _ (omega arith))
  ]
]

digits_at-IsRead : (p : Bytes) → IsRead (digits_at p)
unfolding digits_at IsRead
digits_at-IsRead p = elim (Bool-cases (get_or p 0 0 == 0)) [
  | inl z ↦ rw z tt
  | inr z ↦ rw z (hex_qty_loop-IsRead p 0 (omega arith))
]

pub parse_hex_qty-IsRead : (s : Bytes) → IsRead (parse_hex_qty s)
unfolding parse_hex_qty
parse_hex_qty-IsRead s = digits_at-IsRead (strip_zx s)
