-- ===== src/Ws/User/Window.antt =====
-- The window of trade ids: the set and the queue of ids hold the same, each once, and not too many.
pub mod History
use polymarket_live_maker.Prelude.{
  Bool, Bool-cases, Bytes, List, StringSet, [], ap, arith, contains, contains-erase, contains-put,
  false, if◌then◌else◌, inl, inr, is_empty, length, length-append, ltb, none, put, refl, same_str,
  same_str_sound, same_str_sym, some, suc, sym, ℕ, ◌++◌, ◌||◌, ◌∙◌, ◌∷◌, ◌≡◌, ◌≤◌, ◌⊎◌,
}
use polymarket_live_maker.Ws.User.{window, evict, note_id}

unfoldable pub has_id : Bytes → List Bytes → Bool
has_id k [] = false
has_id k (x ∷ xs) = same_str k x || has_id k xs

unfoldable pub AreDistinct : List Bytes → Type 0
AreDistinct [] = Unit
AreDistinct (x ∷ xs) = (has_id x xs ≡ false) × AreDistinct xs

has_id-snoc :
    (k x : Bytes) (xs : List Bytes) → has_id k (xs ++ (x ∷ [])) ≡ (same_str k x || has_id k xs)
unfolding has_id
has_id-snoc k x [] = refl
has_id-snoc k x (y ∷ ys) = ground (arith, has_id-snoc k x ys)

AreDistinct-snoc :
    (x : Bytes) (xs : List Bytes)
    → has_id x xs ≡ false
    → AreDistinct xs
    → AreDistinct (xs ++ (x ∷ []))
unfolding AreDistinct has_id
AreDistinct-snoc x [] h d = (refl, tt)
AreDistinct-snoc x (y ∷ ys) h (fresh, d) =
    let apart : has_id y (ys ++ (x ∷ [])) ≡ false =
      ground (arith, has_id-snoc y x ys, same_str_sym y x) in
    (apart, AreDistinct-snoc x ys (ground arith) d)

-- The set is the queue, as far as members go, and the queue repeats none and is bounded.
pub record IsWindow (seen : StringSet) (fifo : List Bytes) (n : ℕ) : Type 0 where
  pub same : (k : Bytes) → contains k seen ≡ has_id k fifo
  pub distinct : AreDistinct fifo
  pub small : length fifo ≤ n

gone :
    (oldest : Bytes) (fifo : List Bytes) (k : Bytes) (b : Bool)
    → has_id oldest fifo ≡ false
    → b ≡ (same_str k oldest || has_id k fifo)
    → (if same_str k oldest then false else b) ≡ has_id k fifo
gone oldest fifo k b fresh h = elim (Bool-cases (same_str k oldest)) [
  | inl e ↦ let same = same_str_sound k oldest e in rw (e, same) (sym fresh)
  | inr e ↦ rw e (h ∙ rw e refl)
]

pub evict-IsWindow :
    (seen : StringSet) (fifo : List Bytes)
    → IsWindow seen fifo (suc window)
    → IsWindow (evict seen fifo).0 (evict seen fifo).1 window
unfolding evict has_id AreDistinct
evict-IsWindow seen [] h = record { same = h.same; distinct = tt; small = omega arith }
evict-IsWindow seen (oldest ∷ fifo) h = elim (Bool-cases (ltb window (length (oldest ∷ fifo)))) [
  | inl e ↦ simp e (record {
    same = λ k. contains-erase oldest k seen ∙ gone oldest fifo k _ h.distinct.0 (h.same k);
    distinct = h.distinct.1;
    small = let s = h.small in omega arith;
  })
  | inr e ↦ simp e (record { same = h.same; distinct = h.distinct; small = ground arith })
]

pub put-IsWindow :
    (tid : Bytes) (seen : StringSet) (fifo : List Bytes)
    → IsWindow seen fifo window
    → has_id tid fifo ≡ false
    → IsWindow (put tid tt seen) (fifo ++ (tid ∷ [])) (suc window)
put-IsWindow tid seen fifo h fresh = record {
  same = λ k.
      contains-put tid k seen
      ∙ ap (λ b. same_str k tid || b) (h.same k)
      ∙ sym (has_id-snoc k tid fifo);
  distinct = AreDistinct-snoc tid fifo fresh h.distinct;
  small = let s = h.small in omega (arith, length-append fifo (tid ∷ []));
}

-- A known id changes nothing, and after a new one the window is a window again.
pub note_id-IsWindow :
    (tid : Bytes) (seen : StringSet) (fifo : List Bytes)
    → IsWindow seen fifo window
    → (note_id tid seen fifo ≡ none)
      ⊎ ((s : StringSet) × (f : List Bytes) × (note_id tid seen fifo ≡ some (s, f))
          × IsWindow s f window)
unfolding note_id
note_id-IsWindow tid seen fifo h = elim (Bool-cases (is_empty tid)) [
  | inl e ↦ inr (seen, fifo, simp e refl, h)
  | inr e ↦ elim (Bool-cases (contains tid seen)) [
    | inl known ↦ inl (simp (e, known) refl)
    | inr fresh ↦ inr (
      _,
      _,
      simp (e, fresh) refl,
      evict-IsWindow _ _ (put-IsWindow tid seen fifo h (sym (h.same tid) ∙ fresh)),
    )
  ]
]
