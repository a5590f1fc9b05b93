-- ===== src/Clob/Flatten/Bounds.antt =====
-- How flatten ends: after six orders at most, with an account of what was filled.
use polymarket_live_maker.Prelude.{
  All, All-append, Bytes, Double, List, [], ap, append_assoc, arith, codes, either, false, gt,
  if◌then◌else◌, is_empty, le, length, length-append, lit, lt, nil, refl, same_str, sym, true, ℕ,
  ◌++◌, ◌+◌, ◌∙◌, ◌∷◌, ◌≡◌, ◌≤◌, ◌⊕◌, ◌⊖◌,
}
use polymarket_live_maker.Clob.Client.{Request, ClobSubmitter}
use polymarket_live_maker.Clob.Client.Gets.{IsGet, Asks}
use polymarket_live_maker.Clob.Flatten.{
  Sweep, Flattening, refused, flattened, flatten_partial, note_own,
}

-- The number of orders among requests.
unfoldable pub posts : List Request → ℕ
posts [] = 0
posts (r ∷ rs) = (if same_str r.method (codes "POST") then 1 else 0) + posts rs

posts-append : (xs ys : List Request) → posts (xs ++ ys) ≡ posts xs + posts ys
unfolding posts
posts-append [] ys = omega arith
posts-append (x ∷ xs) ys = omega (arith, posts-append xs ys)

get_is_no_post : same_str (codes "GET") (codes "POST") ≡ false
unfolding same_str
get_is_no_post = refl

posts-gets : (xs : List Request) → All IsGet xs → posts xs ≡ 0
unfolding posts
posts-gets [] h = refl
posts-gets (x ∷ xs) (g, h) = rw (g, get_is_no_post) (omega (arith, posts-gets xs h))

-- At most so many orders were sent between two states.
unfoldable pub Sends : {W : Type 0} → ℕ → ClobSubmitter W → ClobSubmitter W → Type 0
unfolding posts
Sends n s after = (sent : List Request) × (after.log ≡ s.log ++ sent) × (posts sent ≤ n)

module _ {W : Type 0} where
  pub Sends-trans :
      (m n : ℕ) (s t u : ClobSubmitter W) → Sends m s t → Sends n t u → Sends (m + n) s u
  unfolding Sends
  Sends-trans m n s t u (xs, l, h) (ys, k, g) = (
    xs ++ ys,
    k ∙ (ap (λ x. x ++ ys) l ∙ append_assoc s.log xs ys),
    omega (arith, posts-append xs ys),
  )

  pub Sends-weaken : (m n : ℕ) (s t : ClobSubmitter W) → m ≤ n → Sends m s t → Sends n s t
  unfolding Sends
  Sends-weaken m n s t le (xs, l, h) = (xs, l, omega arith)

  pub Asks-Sends : (n : ℕ) (s t : ClobSubmitter W) → Asks s t → Sends n s t
  unfolding Sends Asks
  Asks-Sends n s t (c, gets, g, l) = (gets, l, omega (arith, posts-gets gets g))

  pub note_own-log : (id : Bytes) (s : ClobSubmitter W) → (note_own id s).log ≡ s.log
  unfolding note_own
  note_own-log id s = either (λ (x : ClobSubmitter W). x.log ≡ s.log) (is_empty id) s _ refl refl

module _ {W : Type 0} ⦃d : Double W⦄ where
  -- Fills that were taken off one number and added to another.
  unfoldable pub take_off : W → List W → W
  take_off x [] = x
  take_off x (f ∷ fs) = take_off (x ⊖ f) fs

  unfoldable pub add_up : W → List W → W
  add_up x [] = x
  add_up x (f ∷ fs) = add_up (x ⊕ f) fs

  -- Between two values of the variables: so many fills at most, each positive.
  unfoldable pub Fills : ℕ → Sweep W → Sweep W → Type 0
  unfolding take_off add_up
  Fills n v after =
      (fills : List W) × (length fills ≤ n)
      × All (λ f. gt f nil ≡ true) fills
      × (after.remaining ≡ take_off v.remaining fills)
      × (after.total_filled ≡ add_up v.total_filled fills)

  take_off-append : (x : W) (fs gs : List W) → take_off x (fs ++ gs) ≡ take_off (take_off x fs) gs
  unfolding take_off
  take_off-append x [] gs = refl
  take_off-append x (f ∷ fs) gs = take_off-append (x ⊖ f) fs gs

  add_up-append : (x : W) (fs gs : List W) → add_up x (fs ++ gs) ≡ add_up (add_up x fs) gs
  unfolding add_up
  add_up-append x [] gs = refl
  add_up-append x (f ∷ fs) gs = add_up-append (x ⊕ f) fs gs

  pub Fills-refl : (n : ℕ) (v : Sweep W) → Fills n v v
  unfolding Fills
  Fills-refl n v = ([], omega arith, tt, refl, refl)

  pub Fills-trans : (m n : ℕ) (u v w : Sweep W) → Fills m u v → Fills n v w → Fills (m + n) u w
  unfolding Fills
  Fills-trans m n u v w (fs, lf, pf, rf, tf) (gs, lg, pg, rg, tg) = (
    fs ++ gs,
    omega (arith, length-append fs gs),
    All-append (λ f. gt f nil ≡ true) fs gs pf pg,
    rg ∙ (ap (λ x. take_off x gs) rf ∙ sym (take_off-append u.remaining fs gs)),
    tg ∙ (ap (λ x. add_up x gs) tf ∙ sym (add_up-append u.total_filled fs gs)),
  )

  -- The end of a loop with so many rounds.
  unfoldable pub IsSwept : ℕ → Sweep W → ClobSubmitter W → Flattening W × ClobSubmitter W → Type 0
  unfolding Fills
  IsSwept n v s (refused e, after) = Sends n s after
  IsSwept n v s (flattened w, after) =
      Sends n s after × Fills n v w × (lt w.remaining (lit 1 0) ≡ true)
  IsSwept n v s (flatten_partial w, after) =
      Sends n s after × Fills n v w × (lt w.remaining (lit 1 0) ≡ false)

  pub IsSwept-after :
      (m n : ℕ) (v v' : Sweep W) (s s' : ClobSubmitter W) (r : Flattening W × ClobSubmitter W)
      → Fills m v v'
      → Sends m s s'
      → IsSwept n v' s' r
      → IsSwept (m + n) v s r
  unfolding IsSwept
  IsSwept-after m n v v' s s' (refused e, after) f h rest = Sends-trans m n s s' after h rest
  IsSwept-after m n v v' s s' (flattened w, after) f h (sent, fills, e) =
      (Sends-trans m n s s' after h sent, Fills-trans m n v v' w f fills, e)
  IsSwept-after m n v v' s s' (flatten_partial w, after) f h (sent, fills, e) =
      (Sends-trans m n s s' after h sent, Fills-trans m n v v' w f fills, e)
