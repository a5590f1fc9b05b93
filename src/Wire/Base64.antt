-- ===== src/Wire/Base64.antt =====
-- Base64UrlEncode and Base64UrlDecode of cpp/src/pmm/wire/clob_wire.cpp, and their round trip.
use polymarket_live_maker.Prelude.{
  Bool, Bytes, IsBytes, Option, [], all_below, all_below_sound, ap, arith, codes, false, get_or,
  if◌then◌else◌, leb, none, refl, some, true, ℕ, ◌%◌, ◌&&◌, ◌*◌, ◌+◌, ◌-◌, ◌/◌, ◌<◌, ◌==◌, ◌^◌,
  ◌||◌, ◌∙◌, ◌∷◌, ◌≡◌,
}

abbrev alphabet : Bytes
alphabet = codes "ABCDEFGHIJKLMNOPQRSTUVWXYZabcdefghijklmnopqrstuvwxyz0123456789-_"

-- `none` stands for -1.
unfoldable pub b64url_val : ℕ → Option ℕ
b64url_val c =
    if leb b'A' c && leb c b'Z'
    then some (c - b'A')
    else if leb b'a' c && leb c b'z'
    then some (c - b'a' + 26)
    else if leb b'0' c && leb c b'9'
    then some (c - b'0' + 52)
    else if c == b'-'
    then some 62
    else if c == b'_'
    then some 63
    else none

unfoldable pub b64url_char : ℕ → ℕ
b64url_char v = get_or alphabet v 0

-- Three bytes a round; a last round of one or two is filled up with '='.
unfoldable pub base64url_encode : Bytes → Bytes
unfolding b64url_char
base64url_encode [] = []
base64url_encode (b0 ∷ []) = b64url_char (b0 / 4) ∷ b64url_char (b0 % 4 * 16) ∷ b'=' ∷ b'=' ∷ []
base64url_encode (b0 ∷ b1 ∷ []) =
    b64url_char (b0 / 4)
    ∷ b64url_char (b0 % 4 * 16 + b1 / 16)
    ∷ b64url_char (b1 % 16 * 4)
    ∷ b'='
    ∷ []
base64url_encode (b0 ∷ b1 ∷ b2 ∷ rest) =
    b64url_char (b0 / 4)
    ∷ b64url_char (b0 % 4 * 16 + b1 / 16)
    ∷ b64url_char (b1 % 16 * 4 + b2 / 64)
    ∷ b64url_char (b2 % 64)
    ∷ base64url_encode rest

-- The value of a character that is not passed over.
unfoldable pub taken : ℕ → Option ℕ
taken c = if c == b'=' || (c == 10 || c == 13) then none else b64url_val c

-- The loop: `buf` is the pattern of the 32 bits of an `int`, whose low 14 bits at most are read.
unfoldable pub decode_loop : ℕ → ℕ → Bytes → Bytes
decode_loop buf bits [] = []
decode_loop buf bits (c ∷ cs) = elim (taken c) [
  | none ↦ decode_loop buf bits cs
  | some v ↦
      let next = (buf * 64 + v) % 2 ^ 32 in
      let full = leb 8 (bits + 6) in
      let rest = decode_loop next (if full then bits + 6 - 8 else bits + 6) cs in
      if full then next / 2 ^ (bits + 6 - 8) % 256 ∷ rest else rest
]

abbrev pub base64url_decode : Bytes → Bytes
base64url_decode = decode_loop 0 0

reads : ℕ → Option ℕ → Bool
reads v none = false
reads v (some w) = w == v

-- Every character of the alphabet is read to its place in it.
taken_table : all_below 64 (λ v. reads v (taken (b64url_char v))) ≡ true
unfolding all_below reads taken b64url_char b64url_val
taken_table = refl

reads_sound : (v : ℕ) (o : Option ℕ) → reads v o ≡ true → o ≡ some v
unfolding reads
reads_sound v none h = cc
reads_sound v (some w) h = ground arith

taken-b64url_char : (v : ℕ) → v < 64 → taken (b64url_char v) ≡ some v
taken-b64url_char v h = reads_sound v _ (all_below_sound _ v 64 h taken_table)

-- The buffer after one more character.
abbrev shifted : ℕ → ℕ → ℕ
shifted buf v = (buf * 64 + v) % 2 ^ 32

module _ (buf v : ℕ) (cs : Bytes) (h : v < 64) where
  first : decode_loop buf 0 (b64url_char v ∷ cs) ≡ decode_loop (shifted buf v) 6 cs
  unfolding decode_loop
  first = rw (taken-b64url_char v h, decode_loop) refl

  second :
      decode_loop buf 6 (b64url_char v ∷ cs)
      ≡ (shifted buf v / 16 % 256 ∷ decode_loop (shifted buf v) 4 cs)
  unfolding decode_loop
  second = rw (taken-b64url_char v h, decode_loop) refl

  third :
      decode_loop buf 4 (b64url_char v ∷ cs)
      ≡ (shifted buf v / 4 % 256 ∷ decode_loop (shifted buf v) 2 cs)
  unfolding decode_loop
  third = rw (taken-b64url_char v h, decode_loop) refl

  fourth :
      decode_loop buf 2 (b64url_char v ∷ cs)
      ≡ (shifted buf v / 1 % 256 ∷ decode_loop (shifted buf v) 0 cs)
  unfolding decode_loop
  fourth = rw (taken-b64url_char v h, decode_loop) refl

ends_2 : (buf bits : ℕ) → decode_loop buf bits (b'=' ∷ b'=' ∷ []) ≡ []
unfolding decode_loop taken
ends_2 buf bits = refl

ends_1 : (buf bits : ℕ) → decode_loop buf bits (b'=' ∷ []) ≡ []
unfolding decode_loop taken
ends_1 buf bits = refl

module _ (buf b0 b1 b2 : ℕ) (h0 : b0 < 256) (h1 : b1 < 256) (h2 : b2 < 256) where
  v1 : ℕ
  v1 = b0 % 4 * 16 + b1 / 16

  v2 : ℕ
  v2 = b1 % 16 * 4 + b2 / 64

  buf2 : ℕ
  buf2 = shifted (shifted buf (b0 / 4)) v1

  first_byte : buf2 / 16 % 256 ≡ b0
  unfolding buf2 v1
  first_byte = omega arith

  second_byte : shifted buf2 v2 / 4 % 256 ≡ b1
  unfolding buf2 v1 v2
  second_byte = omega arith

  third_byte : shifted (shifted buf2 v2) (b2 % 64) / 1 % 256 ≡ b2
  unfolding v2
  third_byte = omega arith

  -- A whole round gives its three bytes.
  three :
      (cs : Bytes)
      → (next : ℕ) × (decode_loop buf 0
            (b64url_char (b0 / 4) ∷ b64url_char v1 ∷ b64url_char v2 ∷ b64url_char (b2 % 64) ∷ cs)
          ≡ (b0 ∷ b1 ∷ b2 ∷ decode_loop next 0 cs))
  unfolding buf2 v1 v2
  three cs = (
    shifted (shifted buf2 v2) (b2 % 64),
    rw
        (
          first buf (b0 / 4) _ (omega arith),
          second (shifted buf (b0 / 4)) v1 _ (omega arith),
          third buf2 v2 _ (omega arith),
          fourth (shifted buf2 v2) (b2 % 64) cs (omega arith),
          first_byte,
          second_byte,
          third_byte,
        )
        refl,
  )

-- round trip from any buffer
decode_loop-encode :
    (bs : Bytes) (buf : ℕ) → IsBytes bs → decode_loop buf 0 (base64url_encode bs) ≡ bs
unfolding base64url_encode v1 v2
decode_loop-encode [] buf h = unfold decode_loop in refl
decode_loop-encode (b0 ∷ []) buf (h0, _) =
    let byte : shifted (shifted buf (b0 / 4)) (b0 % 4 * 16) / 16 % 256 ≡ b0 = omega arith in
    rw
      (
        first buf (b0 / 4) _ (omega arith),
        second (shifted buf (b0 / 4)) (b0 % 4 * 16) _ (omega arith),
        byte,
      )
      (ap (λ t. b0 ∷ t) (ends_2 _ 4))
decode_loop-encode (b0 ∷ b1 ∷ []) buf (h0, (h1, _)) =
    let w = b0 % 4 * 16 + b1 / 16 in
    let next = shifted (shifted buf (b0 / 4)) w in
    let byte_0 : next / 16 % 256 ≡ b0 = omega arith in
    let byte_1 : shifted next (b1 % 16 * 4) / 4 % 256 ≡ b1 = omega arith in
    rw
      (
        first buf (b0 / 4) _ (omega arith),
        second (shifted buf (b0 / 4)) w _ (omega arith),
        third next (b1 % 16 * 4) _ (omega arith),
        byte_0,
        byte_1,
      )
      (ap (λ t. b0 ∷ b1 ∷ t) (ends_1 _ 2))
decode_loop-encode (b0 ∷ b1 ∷ b2 ∷ rest) buf (h0, (h1, (h2, hs))) =
    let (next, e) = three buf b0 b1 b2 h0 h1 h2 (base64url_encode rest) in
    e ∙ ap (λ t. b0 ∷ b1 ∷ b2 ∷ t) (decode_loop-encode rest next hs)

-- Whatever bytes are encoded, the decoder gives them back.
pub base64url_decode-encode :
    (bs : Bytes) → IsBytes bs → base64url_decode (base64url_encode bs) ≡ bs
base64url_decode-encode bs h = decode_loop-encode bs 0 h
