-- ===== src/Chain/Ctf/Decode.antt =====
-- Calldata of mergePositions read back by the rules of the contract ABI: static arguments in their
-- slots, the array where its slot's offset points. It models no code of the program.
use polymarket_live_maker.Crypto.Keccak.{length-keccak256}
use polymarket_live_maker.Crypto.Words.{u256_from_u64}
use polymarket_live_maker.Crypto.Words.Laws.{length-u256_from_u64, be_value-u256_from_u64}
use polymarket_live_maker.Chain.Ctf.{addr32, merge_selector, encode_merge_positions}
use polymarket_live_maker.Prelude.{
  All, All-take, Bytes, HasLength, IsU64, List, [], append_assoc, arith, be_value, concat,
  concat-append, drop, drop-append, get_elem?, length, length-append, length-concat, length-take,
  refl, slice, slice-append, slice-concat, some, suc, take, take-append, zero, ℕ, ◌*◌, ◌++◌, ◌+◌,
  ◌∷◌, ◌≡◌,
}

-- `n` words from the offset `off` on.
unfoldable pub words_at : ℕ → ℕ → Bytes → List Bytes
words_at zero off bs = []
words_at (suc n) off bs = slice off 32 bs ∷ words_at n (off + 32) bs

pub record MergeCall : Type 0 where
  pub selector : Bytes
  pub collateral : Bytes
  pub parent : Bytes
  pub condition : Bytes
  pub partition : List Bytes
  pub amount : Bytes

unfoldable pub decode_merge : Bytes → MergeCall
unfolding words_at
decode_merge bs =
    let args = drop 4 bs in
    let off = be_value (slice 96 32 args) in
    record {
      selector = take 4 bs;
      collateral = slice 12 20 args;
      parent = slice 32 32 args;
      condition = slice 64 32 args;
      partition = words_at (be_value (slice off 32 args)) (off + 32) args;
      amount = slice 128 32 args;
    }

words_at-append :
    (ws : List Bytes) (off : ℕ) (front : Bytes)
    → All (HasLength 32) ws
    → length front ≡ off
    → words_at (length ws) off (front ++ concat ws) ≡ ws
unfolding words_at concat
words_at-append [] off front h e = refl
words_at-append (w ∷ ws) off front (h, hs) e =
    let longer : length (front ++ w) ≡ off + 32 = omega (arith, length-append front w) in
    let rest = words_at-append ws (off + 32) (front ++ w) hs longer in
    cc (slice-append off 32 front w (concat ws) e h, rw (append_assoc) at rest)

-- The seven-odd words behind the selector, in order.
merge_words : Bytes → Bytes → Bytes → List Bytes → Bytes → List Bytes
merge_words collateral parent condition partition amount =
    addr32 collateral
    ∷ parent
    ∷ condition
    ∷ u256_from_u64 160
    ∷ amount
    ∷ u256_from_u64 (length partition)
    ∷ partition

module _ (collateral parent condition : Bytes) (partition : List Bytes) (amount : Bytes) where
  ws : List Bytes
  ws = merge_words collateral parent condition partition amount

  encode_words :
      encode_merge_positions collateral parent condition partition amount
      ≡ merge_selector ++ concat ws
  unfolding encode_merge_positions ws merge_words concat
  encode_words = refl

  length-merge_selector : length merge_selector ≡ 4
  unfolding merge_selector
  length-merge_selector = omega (arith, length-take {0}, length-keccak256)

  -- The array types of the arguments.
  abbrev pub IsMerge : Type 0
  IsMerge =
      (length collateral ≡ 20)
      × (length parent ≡ 32)
      × (length condition ≡ 32)
      × All (HasLength 32) partition
      × (length amount ≡ 32)

  merge_words-length : IsMerge → All (HasLength 32) ws
  unfolding ws merge_words addr32
  merge_words-length (hc, hp, hd, hs, ha) = (
    omega arith,
    (hp, (hd, (length-u256_from_u64 160, (ha, (length-u256_from_u64 (length partition), hs))))),
  )

  word_at :
      (i : ℕ) {w : Bytes} → IsMerge → get_elem? ws i ≡ some w → slice (32 * i) 32 (concat ws) ≡ w
  word_at i h e = slice-concat 32 i ws (merge_words-length h) e

  partition_at : IsMerge → words_at (length partition) 192 (concat ws) ≡ partition
  unfolding ws merge_words
  partition_at h =
      let front : List Bytes = take 6 ws in
      let split : concat ws ≡ concat front ++ concat partition = concat-append front partition in
      let len : length (concat front) ≡ 192 =
        omega
          (arith, length-concat 32 front (All-take (HasLength 32) 6 ws (merge_words-length h))) in
      rw split (words_at-append partition 192 (concat front) h.3 len)

  collateral_at : IsMerge → slice 12 20 (concat ws) ≡ collateral
  unfolding ws merge_words addr32 concat
  collateral_at h = take-append 20 collateral _ h.0

  slots :
      IsMerge
      → (slice 32 32 (concat ws) ≡ parent)
        × (slice 64 32 (concat ws) ≡ condition)
        × (slice 96 32 (concat ws) ≡ u256_from_u64 160)
        × (slice 128 32 (concat ws) ≡ amount)
        × (slice 160 32 (concat ws) ≡ u256_from_u64 (length partition))
  unfolding ws merge_words
  slots h =
      (word_at 1 h refl, word_at 2 h refl, word_at 3 h refl, word_at 4 h refl, word_at 5 h refl)

  -- The ABI decoder reads back every argument of mergePositions, and the selector of its signature,
  -- if the arguments have their widths.
  pub decode_merge-encode :
      IsMerge
      → IsU64 (length partition)
      → decode_merge (encode_merge_positions collateral parent condition partition amount)
        ≡ record {
          selector = merge_selector;
          collateral = collateral;
          parent = parent;
          condition = condition;
          partition = partition;
          amount = amount;
        }
  unfolding decode_merge
  decode_merge-encode h fits =
      let call : Bytes = encode_merge_positions collateral parent condition partition amount in
      let args : drop 4 call ≡ concat ws =
        rw encode_words (drop-append 4 merge_selector _ length-merge_selector) in
      let head : take 4 call ≡ merge_selector =
        rw encode_words (take-append 4 merge_selector _ length-merge_selector) in
      let off : be_value (slice 96 32 (concat ws)) ≡ 160 =
        rw (slots h).2 (be_value-u256_from_u64 160 (omega arith)) in
      let count : be_value (slice 160 32 (concat ws)) ≡ length partition =
        rw (slots h).4 (be_value-u256_from_u64 _ fits) in
      let tail : words_at (be_value (slice 160 32 (concat ws))) (160 + 32) (concat ws) ≡ partition =
        rw count (partition_at h) in
      rw (args, head, off, tail, collateral_at h, (slots h).0, (slots h).1, (slots h).3)
