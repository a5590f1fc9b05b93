-- ===== src/Ws/User/Window/History.antt =====
-- The channel against a queue with a full memory: which trades are delivered, over any run.
use polymarket_live_maker.Prelude.{
  Bool-cases, Bytes, List, StringSet, [], ap, append-nil, append_assoc, arith, contains, drop,
  false, if◌then◌else◌, inl, inr, is_empty, length, length-append, length-drop, ltb, ltb→lt, none,
  put, refl, some, suc, sym, true, zero, ℕ, ◌++◌, ◌+◌, ◌-◌, ◌∙◌, ◌∷◌, ◌≡◌, ◌≤◌,
}
use polymarket_live_maker.Ws.User.{TradeFill, UserChannel, window, evict, note_id, enqueue}
use polymarket_live_maker.Ws.User.Window.{has_id, IsWindow, evict-IsWindow, put-IsWindow}

-- The last ids of a history, at most as many as the window has places.
abbrev pub recent : List Bytes → List Bytes
recent h = drop (length h - window) h

-- What is delivered, if every id so far is remembered: a trade without an id, or with one that is
-- not among the recent ones.
unfoldable pub deliver : {W : Type 0} → List (TradeFill W) → List Bytes → List (TradeFill W)
deliver [] h = []
deliver (f ∷ fs) h =
    let keep = deliver fs h in
    let fresh = deliver fs (h ++ (f.id ∷ [])) in
    if is_empty f.id then f ∷ keep else if has_id f.id (recent h) then keep else f ∷ fresh

-- The history after them.
unfoldable pub ids_after : {W : Type 0} → List (TradeFill W) → List Bytes → List Bytes
ids_after [] h = h
ids_after (f ∷ fs) h =
    let keep = ids_after fs h in
    let fresh = ids_after fs (h ++ (f.id ∷ [])) in
    if is_empty f.id then keep else if has_id f.id (recent h) then keep else fresh

drop-append_le : (k : ℕ) (xs ys : List Bytes) → k ≤ length xs → drop k (xs ++ ys) ≡ drop k xs ++ ys
drop-append_le zero xs ys h = refl
drop-append_le (suc k) [] ys h = absurd (omega arith)
drop-append_le (suc k) (x ∷ xs) ys h = drop-append_le k xs ys (omega arith)

drop-first : (k : ℕ) (x : Bytes) (xs ys : List Bytes) → drop k ys ≡ x ∷ xs → drop (suc k) ys ≡ xs
drop-first zero x xs [] h = absurd (grind arith)
drop-first zero x xs (y ∷ ys) h = grind arith
drop-first (suc k) x xs [] h = absurd (grind arith)
drop-first (suc k) x xs (y ∷ ys) h = drop-first k x xs ys h

-- The queue of ids holds the recent ones.
unfoldable pub IsRecent : List Bytes → List Bytes → Type 0
IsRecent fifo h = fifo ≡ recent h

evict-IsRecent :
    (seen : StringSet) (whole h : List Bytes) (id : Bytes)
    → whole ≡ recent h ++ (id ∷ [])
    → IsRecent (evict seen whole).1 (h ++ (id ∷ []))
unfolding evict IsRecent
evict-IsRecent seen [] h id e =
    absurd (omega (arith, ap length e, length-append (recent h) (id ∷ [])))
evict-IsRecent seen (oldest ∷ fifo) h id e =
    let k : ℕ = length h - window in
    let len : length (recent h) ≡ length h - k = length-drop k h in
    let more : length (h ++ (id ∷ [])) ≡ length h + 1 = length-append h (id ∷ []) in
    let longer : suc (length fifo) ≡ length (recent h) + 1 =
      ap length e ∙ length-append (recent h) (id ∷ []) in
    let whole : oldest ∷ fifo ≡ drop k (h ++ (id ∷ [])) =
      e ∙ sym (drop-append_le k h (id ∷ []) (omega arith)) in
    elim (Bool-cases (ltb window (length (oldest ∷ fifo)))) [
      | inl full ↦
          let passed = ltb→lt window (suc (length fifo)) full in
          let next : suc k ≡ length (h ++ (id ∷ [])) - window = omega arith in
          simp full (
            sym (drop-first k oldest fifo (h ++ (id ∷ [])) (sym whole))
            ∙ ap (λ j. drop j (h ++ (id ∷ []))) (next))
      | inr room ↦
          let same : k ≡ length (h ++ (id ∷ [])) - window = ground arith in
          simp room (whole ∙ ap (λ j. drop j (h ++ (id ∷ []))) same)
    ]

note_id-empty :
    (id : Bytes) (seen : StringSet) (fifo : List Bytes)
    → is_empty id ≡ true
    → note_id id seen fifo ≡ some (seen, fifo)
unfolding note_id
note_id-empty id seen fifo e = simp e refl

note_id-known :
    (id : Bytes) (seen : StringSet) (fifo h : List Bytes)
    → is_empty id ≡ false
    → IsWindow seen fifo window
    → IsRecent fifo h
    → has_id id (recent h) ≡ true
    → note_id id seen fifo ≡ none
unfolding note_id IsRecent
note_id-known id seen fifo h some_id w r known =
    let there : contains id seen ≡ true = w.same id ∙ ap (has_id id) r ∙ known in
    simp (some_id, there) refl

note_id-fresh :
    (id : Bytes) (seen : StringSet) (fifo h : List Bytes)
    → is_empty id ≡ false
    → IsWindow seen fifo window
    → IsRecent fifo h
    → has_id id (recent h) ≡ false
    → note_id id seen fifo ≡ some (evict (put id tt seen) (fifo ++ (id ∷ [])))
unfolding note_id IsRecent
note_id-fresh id seen fifo h some_id w r fresh =
    let there : contains id seen ≡ false = w.same id ∙ ap (has_id id) r ∙ fresh in
    simp (some_id, there) refl

module _ {W : Type 0} where
  unfoldable pub handle_trades : List (TradeFill W) → UserChannel W → UserChannel W
  handle_trades [] ch = ch
  handle_trades (f ∷ fs) ch = handle_trades fs (enqueue f (note_id f.id ch.seen ch.seen_fifo) ch)

  -- The state stands for a history.
  unfoldable pub Holds : UserChannel W → List Bytes → Type 0
  Holds ch h = IsWindow ch.seen ch.seen_fifo window × IsRecent ch.seen_fifo h

  pub handle_trades-deliver :
      (fs : List (TradeFill W)) (ch : UserChannel W) (h : List Bytes)
      → Holds ch h
      → ((handle_trades fs ch).queue ≡ ch.queue ++ deliver fs h)
        × Holds (handle_trades fs ch) (ids_after fs h)
  unfolding handle_trades deliver ids_after enqueue Holds IsRecent
  handle_trades-deliver [] ch h r = (sym (append-nil ch.queue), r)
  handle_trades-deliver (f ∷ fs) ch h (w, r) = elim (Bool-cases (is_empty f.id)) [
    | inl e ↦
        let rest =
          handle_trades-deliver fs (enqueue f (some (ch.seen, ch.seen_fifo)) ch) h (w, r) in
        simp (e, note_id-empty f.id ch.seen ch.seen_fifo e)
          (rest.0 ∙ append_assoc ch.queue (f ∷ []) _, rest.1)
    | inr e ↦ elim (Bool-cases (has_id f.id (recent h))) [
      | inl known ↦
          simp (e, known, note_id-known f.id ch.seen ch.seen_fifo h e w r known)
            (handle_trades-deliver fs ch h (w, r))
      | inr fresh ↦
          let put_in = put-IsWindow f.id ch.seen ch.seen_fifo w (ap (has_id f.id) r ∙ fresh) in
          let kept = evict-IsWindow _ _ put_in in
          let rec =
            evict-IsRecent (put f.id tt ch.seen) (ch.seen_fifo ++ (f.id ∷ [])) h f.id
              (ap (λ x. x ++ (f.id ∷ [])) r) in
          let rest =
            handle_trades-deliver fs
              (enqueue f (some (evict (put f.id tt ch.seen) (ch.seen_fifo ++ (f.id ∷ [])))) ch)
              (h ++ (f.id ∷ [])) (kept, rec) in
          simp (e, fresh, note_id-fresh f.id ch.seen ch.seen_fifo h e w r fresh)
            (rest.0 ∙ append_assoc ch.queue (f ∷ []) _, rest.1)
    ]
  ]
