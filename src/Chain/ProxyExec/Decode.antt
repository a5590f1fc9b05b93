-- ===== src/Chain/ProxyExec/Decode.antt =====
-- Calldata of proxy(ProxyCall[]) read back by the rules of the contract ABI: every dynamic part is
-- where its offset points. It models no code of the program.
use polymarket_live_maker.Crypto.Keccak.{length-keccak256}
use polymarket_live_maker.Crypto.Words.{u256_from_u64}
use polymarket_live_maker.Crypto.Words.Laws.{length-u256_from_u64, be_value-u256_from_u64}
use polymarket_live_maker.Chain.Ctf.{addr32}
use polymarket_live_maker.Chain.ProxyExec.{
  CallType, ProxyCall, call_code, proxy_selector, padding, encode_call, offsets, encode_proxy,
}
use polymarket_live_maker.Prelude.{
  All, All-take, Bytes, HasLength, IsU64, List, [], ap, append-nil, append_assoc, arith, be_value,
  concat, concat-append, concat-cons, drop, drop-append, drop-drop_append, get_elem?, if◌then◌else◌,
  length, length-append, length-concat, length-map, length-take, map, refl, slice, slice-append,
  slice-concat_append, some, suc, take, take-append, zero, ℕ, ◌%◌, ◌*◌, ◌++◌, ◌+◌, ◌<◌, ◌==◌, ◌^◌,
  ◌∙◌, ◌∷◌, ◌≡◌,
}

-- Numbers above 2 stand for no member of the Solidity enum; they are not written.
call_type : ℕ → CallType
call_type code =
    if code == 0
    then CallType.invalid
    else if code == 1
    then CallType.call
    else CallType.delegate_call

unfoldable pub decode_call : Bytes → ProxyCall
unfolding call_type
decode_call t =
    let tail = drop (be_value (slice 96 32 t)) t in
    record {
      type_code = call_type (be_value (slice 0 32 t));
      to = slice 44 20 t;
      value = slice 64 32 t;
      call_data = slice 32 (be_value (slice 0 32 tail)) tail;
    }

-- `n` elements, whose offsets stand from `at` on and count from the front of `body`.
unfoldable pub decode_calls : ℕ → ℕ → Bytes → List ProxyCall
decode_calls zero at body = []
decode_calls (suc n) at body =
    decode_call (drop (be_value (slice at 32 body)) body) ∷ decode_calls n (at + 32) body

unfoldable pub decode_proxy : Bytes → Bytes × List ProxyCall
decode_proxy bs =
    let args = drop 4 bs in
    let array = drop (be_value (slice 0 32 args)) args in
    (take 4 bs, decode_calls (be_value (slice 0 32 array)) 0 (drop 32 array))

pub record IsCall (c : ProxyCall) : Type 0 where
  pub to : length c.to ≡ 20
  pub value : length c.value ≡ 32
  pub size : IsU64 (length c.call_data)

call_type-code : (t : CallType) → call_type (call_code t) ≡ t
unfolding call_type call_code
call_type-code CallType.invalid = refl
call_type-code CallType.call = refl
call_type-code CallType.delegate_call = refl

call_code-lt : (t : CallType) → IsU64 (call_code t)
unfolding call_code
call_code-lt CallType.invalid = omega arith
call_code-lt CallType.call = omega arith
call_code-lt CallType.delegate_call = omega arith

module _ (c : ProxyCall) (h : IsCall c) (rest : Bytes) where
  whole : Bytes
  whole = encode_call c ++ rest

  words : List Bytes
  words =
      u256_from_u64 (call_code c.type_code)
      ∷ addr32 c.to
      ∷ c.value
      ∷ u256_from_u64 0x80
      ∷ u256_from_u64 (length c.call_data)
      ∷ []

  tail : Bytes
  tail = c.call_data ++ (padding (length c.call_data) ++ rest)

  split : whole ≡ concat words ++ tail
  unfolding whole words tail encode_call concat
  split = simp (append_assoc)

  words-length : All (HasLength 32) words
  unfolding words addr32
  words-length = (
    length-u256_from_u64 _,
    (
      let t = h.to in omega arith,
      (h.value, (length-u256_from_u64 0x80, (length-u256_from_u64 _, tt))),
    ),
  )

  slot : (i : ℕ) {w : Bytes} → get_elem? words i ≡ some w → slice (32 * i) 32 whole ≡ w
  slot i e = rw split (slice-concat_append 32 i words tail words-length e)

  slots :
      (slice 0 32 whole ≡ u256_from_u64 (call_code c.type_code))
      × (slice 64 32 whole ≡ c.value)
      × (slice 96 32 whole ≡ u256_from_u64 0x80)
  unfolding words
  slots = (slot 0 refl, slot 2 refl, slot 3 refl)

  to_slot : slice 44 20 whole ≡ c.to
  unfolding whole encode_call addr32
  to_slot = rw append_assoc (
      ap (take 20)
        (drop-drop_append 32 12 (u256_from_u64 (call_code c.type_code)) _ (length-u256_from_u64 _))
      ∙ rw append_assoc (take-append 20 c.to _ h.to))

  tail_slot : drop 0x80 whole ≡ u256_from_u64 (length c.call_data) ++ tail
  unfolding words
  tail_slot =
      let front : List Bytes = take 4 words in
      let last : Bytes = u256_from_u64 (length c.call_data) in
      let parts : concat words ≡ concat front ++ concat (last ∷ []) =
        concat-append front (last ∷ []) in
      let one : concat (last ∷ []) ≡ last = unfold concat in append-nil last in
      let len : length (concat front) ≡ 128 =
        omega (arith, length-concat 32 front (All-take (HasLength 32) 4 words words-length)) in
      rw (split, parts, one, append_assoc) (drop-append 128 (concat front) (last ++ tail) len)

  data_slot :
      slice 32 (length c.call_data) (u256_from_u64 (length c.call_data) ++ tail) ≡ c.call_data
  unfolding tail
  data_slot =
      slice-append 32 (length c.call_data) (u256_from_u64 (length c.call_data)) c.call_data _
        (length-u256_from_u64 _) refl

  -- One tuple is read back, whatever follows it.
  decode_call-encode : decode_call whole ≡ c
  unfolding decode_call
  decode_call-encode =
      let kind : call_type (be_value (slice 0 32 whole)) ≡ c.type_code =
        rw (slots.0, be_value-u256_from_u64 _ (call_code-lt c.type_code))
          (call_type-code c.type_code) in
      let at : be_value (slice 96 32 whole) ≡ 0x80 =
        rw slots.2 (be_value-u256_from_u64 0x80 (omega arith)) in
      let tail' : drop (be_value (slice 96 32 whole)) whole
          ≡ u256_from_u64 (length c.call_data) ++ tail =
        rw at tail_slot in
      let size : be_value (slice 0 32 (u256_from_u64 (length c.call_data) ++ tail))
          ≡ length c.call_data =
        rw (take-append 32 (u256_from_u64 (length c.call_data)) tail (length-u256_from_u64 _))
          (be_value-u256_from_u64 _ h.size) in
      rw (tail', size, data_slot, kind, to_slot, slots.1)

length-offsets : (es : List Bytes) (off : ℕ) → length (offsets es off) ≡ 32 * length es
unfolding offsets
length-offsets [] off = omega arith
length-offsets (e ∷ es) off = omega (
  arith,
  length-append (u256_from_u64 off) (offsets es ((off + length e) % 2 ^ 64)),
  length-u256_from_u64 off,
  length-offsets es ((off + length e) % 2 ^ 64),
)

offsets-cons :
    (e : Bytes) (es : List Bytes) (off : ℕ)
    → off + length e < 2 ^ 64
    → offsets (e ∷ es) off ≡ u256_from_u64 off ++ offsets es (off + length e)
unfolding offsets
offsets-cons e es off fits =
    let nowrap : (off + length e) % 2 ^ 64 ≡ off + length e = omega arith in rw nowrap

-- One element, with the words `P` and the bodies `M` of the elements before it.
module _ (c : ProxyCall) (h : IsCall c) (P W O M C : Bytes) (at off n : ℕ) where
  body : Bytes
  body = P ++ ((W ++ O) ++ (M ++ (encode_call c ++ C)))

  decode_calls_step :
      length P ≡ at
      → W ≡ u256_from_u64 off
      → IsU64 off
      → length (P ++ ((W ++ O) ++ M)) ≡ off
      → decode_calls (suc n) at body
        ≡ c ∷ decode_calls n (at + 32) ((P ++ W) ++ (O ++ ((M ++ encode_call c) ++ C)))
  unfolding decode_calls body
  decode_calls_step hp hw fits len =
      let near : body ≡ P ++ (W ++ (O ++ (M ++ (encode_call c ++ C)))) = simp append_assoc in
      let far : body ≡ (P ++ ((W ++ O) ++ M)) ++ (encode_call c ++ C) = simp append_assoc in
      let moved : body ≡ (P ++ W) ++ (O ++ ((M ++ encode_call c) ++ C)) = simp append_assoc in
      let size : length W ≡ 32 = rw hw (length-u256_from_u64 off) in
      let offset : be_value (slice at 32 body) ≡ off = rw near (
        rw (slice-append at 32 P W (O ++ (M ++ (encode_call c ++ C))) hp size, hw)
          (be_value-u256_from_u64 off fits)) in
      let element : drop off body ≡ encode_call c ++ C =
        rw far (drop-append off (P ++ ((W ++ O) ++ M)) (encode_call c ++ C) len) in
      let first : decode_call (drop (be_value (slice at 32 body)) body) ≡ c =
        rw (offset, element) (unfold whole in decode_call-encode c h C) in
      cc (first, ap (decode_calls n (at + 32)) moved)

-- Each element is read back from the place that its offset names.
decode_calls-offsets :
    (cs : List ProxyCall) (P M : Bytes) (at off : ℕ)
    → All IsCall cs
    → length P ≡ at
    → off ≡ at + 32 * length cs + length M
    → off + length (concat (map encode_call cs)) < 2 ^ 64
    → decode_calls
        (length cs)
        at
        (P ++ (offsets (map encode_call cs) off ++ (M ++ concat (map encode_call cs))))
      ≡ cs
decode_calls-offsets [] P M at off h hp ho fits = unfold decode_calls in refl
decode_calls-offsets (c ∷ cs) P M at off (h, hs) hp ho fits =
    let es : List Bytes = map encode_call cs in
    let off' : ℕ = off + length (encode_call c) in
    let W : Bytes = u256_from_u64 off in
    let O : Bytes = offsets es off' in
    let sizes : length (concat (encode_call c ∷ es)) ≡ length (encode_call c) + length (concat es) =
      unfold concat in length-append (encode_call c) (concat es) in
    let front : length (P ++ ((W ++ O) ++ M)) ≡ off = omega (
      arith,
      length-append {0},
      length-u256_from_u64 off,
      length-offsets es off',
      length-map encode_call cs,
    ) in
    let rest =
      decode_calls-offsets cs (P ++ W) (M ++ encode_call c) (at + 32) off' hs
        (omega (arith, length-append P W, length-u256_from_u64 off))
        (omega (arith, length-append M (encode_call c))) (omega arith) in
    rw (offsets-cons (encode_call c) es off (omega arith), concat-cons (encode_call c) es)
      (unfold body in
        decode_calls_step c h P W O M (concat es) at off (length cs) hp refl (omega arith) front)
    ∙ ap (◌∷◌ c) rest

length-proxy_selector : length proxy_selector ≡ 4
unfolding proxy_selector
length-proxy_selector = omega (arith, length-take {0}, length-keccak256)

-- The ABI decoder reads back the selector and every call, in order, from the calldata of proxy(),
-- if addresses and values have their widths and the total size stays below 2 ^ 64.
pub decode_proxy-encode :
    (calls : List ProxyCall)
    → All IsCall calls
    → length calls * 32 + length (concat (map encode_call calls)) < 2 ^ 64
    → decode_proxy (encode_proxy calls) ≡ (proxy_selector, calls)
unfolding decode_proxy encode_proxy
decode_proxy-encode calls h fits =
    let elems : List Bytes = map encode_call calls in
    let nowrap : length calls * 32 % 2 ^ 64 ≡ 32 * length calls = omega arith in
    let body : Bytes = offsets elems (32 * length calls) ++ concat elems in
    let array : Bytes = u256_from_u64 (length calls) ++ body in
    let args : Bytes = u256_from_u64 0x20 ++ array in
    let start : be_value (slice 0 32 args) ≡ 0x20 =
      rw (take-append 32 (u256_from_u64 0x20) array (length-u256_from_u64 0x20))
        (be_value-u256_from_u64 0x20 (omega arith)) in
    let count : be_value (slice 0 32 array) ≡ length calls =
      rw (take-append 32 (u256_from_u64 (length calls)) body (length-u256_from_u64 _))
        (be_value-u256_from_u64 _ (omega arith)) in
    let all : decode_calls (length calls) 0 body ≡ calls =
      decode_calls-offsets calls [] [] 0 (32 * length calls) h refl (omega arith) (omega arith) in
    rw (
      nowrap,
      take-append 4 proxy_selector args length-proxy_selector,
      drop-append 4 proxy_selector args length-proxy_selector,
      start,
      drop-append 32 (u256_from_u64 0x20) array (length-u256_from_u64 0x20),
      count,
      drop-append 32 (u256_from_u64 (length calls)) body (length-u256_from_u64 _),
      all,
    )
