-- ===== src/TailVendor/Sheet.antt =====
-- `validate_sheet` of cpp/src/pmm/tail_vendor.cpp: a list of orders that a person wrote. How a
-- `double` is printed (`std::to_string`) is a parameter.
use polymarket_live_maker.Prelude.{
  All, Bool, Bool-cases, Bytes, Double, List, Option, Option-cases, [], arith, codes, exceeds,
  false, find, find-put, find_or, foldl, gt, if◌then◌else◌, inl, inr, length, lit, lt, ltb, nil,
  none, not, put, refl, same_str, same_str_refl, some, suc, to_string, true, ℕ, ◌&&◌, ◌++◌, ◌||◌,
  ◌↔◌, ◌∷◌, ◌≡◌, ◌⊕◌, ◌⊗◌,
}
use polymarket_live_maker.Crypto.Words.{is_digit}
use polymarket_live_maker.TailVendor.{Config, eps}

pub record SheetEntry (W : Type 0) : Type 0 where
  pub no_token : Bytes
  pub no_price : W
  pub size : W
  pub note : Bytes

-- `find_first_not_of("0123456789") == npos`.
unfoldable pub all_digits : Bytes → Bool
all_digits [] = true
all_digits (c ∷ cs) = is_digit c && all_digits cs

abbrev pub Seen : Type 0
Seen = List (Bytes × ℕ)

unfoldable pub mark_seen : Bytes → Seen → Seen
mark_seen tok seen = put tok (suc (find_or 0 tok seen)) seen

module _ {W : Type 0} ⦃d : Double W⦄ (show_double : W → Bytes) (cfg : Config W) where
  abbrev about : Bytes → SheetEntry W → Bytes
  about text e = text ++ (codes " (" ++ (e.note ++ codes ")"))

  unfoldable pub entry_error : Seen → SheetEntry W → Option Bytes
  entry_error seen e =
      if same_str e.no_token [] || not (all_digits e.no_token)
      then some (about (codes "bad token_id") e)
      else if ltb 1 (find_or 0 e.no_token (mark_seen e.no_token seen))
      then some (about (codes "duplicate token") e)
      else if lt e.no_price (lit 80 2) || gt e.no_price (lit 995 3)
      then some (about (codes "price outside NO-buy band [0.80, 0.995]") e)
      else if lt e.size cfg.min_shares || gt e.size (lit 100 0)
      then some (about (codes "size outside [min,100]") e)
      else none

  unfoldable pub sheet_loop : Seen → W → List (SheetEntry W) → Option Bytes
  sheet_loop seen notional [] =
      if gt notional (cfg.total_usd ⊕ eps)
      then some (codes "notional $" ++ (show_double notional ++ codes " > total cap"))
      else none
  sheet_loop seen notional (e ∷ es) = elim (entry_error seen e) [
    | some text ↦ some text
    | none ↦ sheet_loop (mark_seen e.no_token seen) (notional ⊕ e.no_price ⊗ e.size) es
  ]

  unfoldable pub validate_sheet : List (SheetEntry W) → Option Bytes
  validate_sheet sheet =
      if exceeds (length sheet) cfg.max_orders
      then some (codes "sheet size " ++ (to_string (length sheet) ++ codes " > max_orders"))
      else sheet_loop [] nil sheet

  -- What a sheet has to be.
  pub record IsEntry (e : SheetEntry W) : Type 0 where
    pub named : same_str e.no_token [] ≡ false
    pub digits : all_digits e.no_token ≡ true
    pub cheap : lt e.no_price (lit 80 2) ≡ false
    pub dear : gt e.no_price (lit 995 3) ≡ false
    pub small : lt e.size cfg.min_shares ≡ false
    pub large : gt e.size (lit 100 0) ≡ false

  abbrev pub IsNew : Seen → SheetEntry W → Type 0
  IsNew seen e = find_or 0 e.no_token seen ≡ 0

  abbrev pub IsOther : SheetEntry W → SheetEntry W → Type 0
  IsOther e f = same_str f.no_token e.no_token ≡ false

  abbrev pub IsDistinct : List (SheetEntry W) → Type 0
  IsDistinct [] = Unit
  IsDistinct (e ∷ es) = All (IsOther e) es × IsDistinct es

  abbrev pub notional_from : W → List (SheetEntry W) → W
  notional_from start = foldl (λ n e. n ⊕ e.no_price ⊗ e.size) start

  find_or-mark_seen :
      (tok other : Bytes) (seen : Seen)
      → find_or 0 other (mark_seen tok seen)
        ≡ (if same_str other tok then suc (find_or 0 tok seen) else find_or 0 other seen)
  unfolding mark_seen
  find_or-mark_seen tok other seen =
      ground (arith, find-put tok other (suc (find_or 0 tok seen)) seen)

  entry_error_iff :
      (seen : Seen) (e : SheetEntry W) → (entry_error seen e ≡ none) ↔ (IsEntry e × IsNew seen e)
  unfolding entry_error
  entry_error_iff seen e =
      let mark = find_or-mark_seen e.no_token e.no_token seen in
      let same = same_str_refl e.no_token in
      (
        λ h. (
          record {
            named = ground arith;
            digits = ground arith;
            cheap = ground arith;
            dear = ground arith;
            small = ground arith;
            large = ground arith;
          },
          ground (arith, mark, same),
        ),
        λ (ok, new).
            let named = ok.named in
            let digits = ok.digits in
            let cheap = ok.cheap in
            let dear = ok.dear in
            let small = ok.small in
            let large = ok.large in
            ground (arith, mark, same, new, named, digits, cheap, dear, small, large),
      )

  -- An entry is new after another one if it was new before, and its token is another.
  All-IsNew_iff :
      (seen : Seen) (e : SheetEntry W) (es : List (SheetEntry W))
      → All (IsNew (mark_seen e.no_token seen)) es ↔ (All (IsNew seen) es × All (IsOther e) es)
  All-IsNew_iff seen e [] = (λ h. (tt, tt), λ h. tt)
  All-IsNew_iff seen e (f ∷ es) =
      let mark = find_or-mark_seen e.no_token f.no_token seen in
      let rest = All-IsNew_iff seen e es in
      elim (Bool-cases (same_str f.no_token e.no_token)) [
        | inl s ↦ (
          λ h. absurd (let new = h.0 in ground (arith, mark, s, new)),
          λ h. absurd (let other = h.1.0 in cc (s, other)),
        )
        | inr s ↦ (
          λ h. (
            (let new = h.0 in ground (arith, mark, s, new), (rest.0 h.1).0),
            (s, (rest.0 h.1).1),
          ),
          λ h. (let new = h.0.0 in ground (arith, mark, s, new), rest.1 (h.0.1, h.1.1)),
        )
      ]

  All-IsNew_nil : (es : List (SheetEntry W)) → All (IsNew []) es
  unfolding find
  All-IsNew_nil [] = tt
  All-IsNew_nil (e ∷ es) = (refl, All-IsNew_nil es)

  abbrev Accepts : Seen → W → List (SheetEntry W) → Type 0
  Accepts seen start es =
      All IsEntry es
      × IsDistinct es
      × All (IsNew seen) es
      × (gt (notional_from start es) (cfg.total_usd ⊕ eps) ≡ false)

  sheet_loop_iff :
      (es : List (SheetEntry W)) (seen : Seen) (start : W)
      → (sheet_loop seen start es ≡ none) ↔ Accepts seen start es
  unfolding sheet_loop
  sheet_loop_iff [] seen start =
      (λ h. (tt, tt, tt, ground arith), λ (_, _, _, under). ground (arith, under))
  sheet_loop_iff (e ∷ es) seen start =
      let head = entry_error_iff seen e in
      let rest = sheet_loop_iff es (mark_seen e.no_token seen) (start ⊕ e.no_price ⊗ e.size) in
      let new = All-IsNew_iff seen e es in
      elim (Option-cases (entry_error seen e)) [
        | inl z ↦
            let (ok, fresh) = head.0 z in
            (
              λ h.
                  let (oks, distinct, fresh_rest, under) = rest.0 (rw (z, sheet_loop) at h) in
                  let (before, other) = new.0 fresh_rest in
                  ((ok, oks), (other, distinct), (fresh, before), under),
              λ ((_, oks), (other, distinct), (_, before), under).
                  rw (z, sheet_loop) (rest.1 (oks, distinct, new.1 (before, other), under)),
            )
        | inr (text, z) ↦ (
          λ h. absurd (let bad : some text ≡ none = ground arith in cc bad),
          λ ((ok, _), _, (fresh, _), _). absurd (let fine = head.1 (ok, fresh) in cc (z, fine)),
        )
      ]

  -- A sheet is accepted exactly if it has no more entries than the bound, every entry has a token
  -- of digits, a price and a size in their bands, the tokens are different, and the sum of the
  -- notionals is not above the total bound.
  pub validate_sheet_iff :
      (sheet : List (SheetEntry W))
      → (validate_sheet sheet ≡ none) ↔ (
          (exceeds (length sheet) cfg.max_orders ≡ false)
          × All IsEntry sheet
          × IsDistinct sheet
          × (gt (notional_from nil sheet) (cfg.total_usd ⊕ eps) ≡ false))
  unfolding validate_sheet
  validate_sheet_iff sheet =
      let loop = sheet_loop_iff sheet [] nil in
      (
        λ h.
            let room : exceeds (length sheet) cfg.max_orders ≡ false = ground arith in
            let (oks, distinct, _, under) = loop.0 (ground arith) in (room, oks, distinct, under),
        λ (room, oks, distinct, under).
            let all : sheet_loop [] nil sheet ≡ none =
              loop.1 (oks, distinct, All-IsNew_nil sheet, under) in
            ground (arith, room, all),
      )
