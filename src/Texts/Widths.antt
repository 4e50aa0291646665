-- ===== src/Texts/Widths.antt =====
-- How wide a chopped text is, and one that is filled.
use dnf.Base.{
  ℕ, zero, suc, ◌+◌, ◌-◌, ◌≤◌, ◌<◌, Bool, true, false, ◌&&◌, Option, none, some, [], ◌∷◌, ◌++◌, ltb,
  leb, ℕ_eq, if◌then◌else◌, ◌≡◌, refl, sym, arith, Bool-cases, inl, inr, append_assoc, append-nil,
}
use dnf.Texts.{
  Text, is_empty, spaces, exact_width_char, exact_width, chop_loop, chop_str, fill_exact_width,
}

module _ (is_wide : ℕ → Bool) where
  exact_width-append :
      (xs ys : Text)
      → exact_width is_wide (xs ++ ys) ≡ exact_width is_wide xs + exact_width is_wide ys
  unfolding exact_width
  exact_width-append [] ys = omega arith
  exact_width-append (c ∷ xs) ys = omega (arith, exact_width-append xs ys)

  exact_width-spaces : is_wide 32 ≡ false → (n : ℕ) → exact_width is_wide (spaces n) ≡ n
  unfolding exact_width
  exact_width-spaces narrow zero = refl
  exact_width-spaces narrow (suc n) = rw narrow (omega (arith, exact_width-spaces narrow n))

  -- A text begins with what is kept of it, and the rest is empty or its first character is one
  -- that does not fit.
  abbrev pub IsCut : ℕ → Text → ℕ → Text → Text → Type 0
  IsCut chop msg width chopped [] = msg ≡ chopped
  IsCut chop msg width chopped (c ∷ rest) =
      (msg ≡ chopped ++ c ∷ rest) × (chop < width + exact_width_char is_wide c)

  chop_loop-IsCut :
      (chop : ℕ) (msg : Text) (width : ℕ) (done : Text)
      → width ≡ exact_width is_wide done
      → width ≤ chop
      → let r = chop_loop is_wide chop msg width done in
        (r.0 ≡ exact_width is_wide r.1)
        × (r.0 ≤ chop)
        × ((rest : Text) × IsCut chop (done ++ msg) r.0 r.1 rest)
  unfolding chop_loop exact_width
  chop_loop-IsCut chop [] width done e l = (e, l, ([], append-nil done))
  chop_loop-IsCut chop (c ∷ msg) width done e l =
      elim (Bool-cases (ltb chop (width + exact_width_char is_wide c))) [
        | inl x ↦ rw (chop_loop, x) (e, l, (c ∷ msg, (refl, ground (arith, x))))
        | inr x ↦
            rw (chop_loop, x, sym (append_assoc done (c ∷ []) msg))
              (chop_loop-IsCut chop msg (width + exact_width_char is_wide c) (done ++ c ∷ [])
                (omega (arith, e, exact_width-append done (c ∷ []))) (ground (arith, x)))
      ]

  -- The width and the text of `chop_str` belong together.
  chop_str-width :
      (msg : Text) (chop : Option ℕ)
      → (chop_str is_wide msg chop).0 ≡ exact_width is_wide (chop_str is_wide msg chop).1
  unfolding chop_str exact_width
  chop_str-width msg none = refl
  chop_str-width msg (some chop) = (chop_loop-IsCut chop msg 0 [] refl (omega arith)).0

  -- A text that is chopped to a width begins as it did, is no wider than that, and is cut only where
  -- its next character would not fit.
  abbrev pub IsChopped : Text → Option ℕ → Type 0
  IsChopped msg none = (chop_str is_wide msg none).1 ≡ msg
  IsChopped msg (some chop) =
      let r = chop_str is_wide msg (some chop) in
      (r.0 ≤ chop) × ((rest : Text) × IsCut chop msg r.0 r.1 rest)

  chop_str-IsChopped : (msg : Text) (chop : Option ℕ) → IsChopped msg chop
  unfolding chop_str
  chop_str-IsChopped msg none = refl
  chop_str-IsChopped msg (some chop) =
      let r = chop_loop-IsCut chop msg 0 [] (chop_str-width [] none) (omega arith) in (r.1, r.2)

  abbrev pub wider : ℕ → ℕ → ℕ
  wider m n = if leb m n then n else m

  is_empty-width : (t : Text) → is_empty t ≡ true → exact_width is_wide t ≡ 0
  unfolding exact_width
  is_empty-width [] e = refl
  is_empty-width (c ∷ t) e = ground (arith, e)

  between :
      (before msg after : Text)
      → exact_width is_wide (before ++ msg ++ after)
        ≡ exact_width is_wide msg + exact_width is_wide before + exact_width is_wide after
  between before msg after =
      omega (arith, exact_width-append before msg, exact_width-append (before ++ msg) after)

  not_leb : (m n : ℕ) → leb m n ≡ false → n < m
  not_leb m n e = ground (arith, e)

  -- Where a space is not wide: the text is chopped to the width that is asked for, at a character
  -- that does not fit; and the filled text is as wide as the wider one of that and the width to be
  -- filled, with what stands before and after it besides.
  pub fill_exact_width-IsFilled :
      is_wide 32 ≡ false
      → (msg : Text) (fill : ℕ) (chop : Option ℕ) (left : Bool) (before after : Text)
      → IsChopped msg chop
        × (exact_width is_wide (fill_exact_width is_wide msg fill chop left before after)
            ≡ wider fill (exact_width is_wide (chop_str is_wide msg chop).1)
              + exact_width is_wide before
              + exact_width is_wide after)
  unfolding fill_exact_width
  fill_exact_width-IsFilled narrow msg fill chop left before after =
      let m = chop_str is_wide msg chop in
      let width = exact_width is_wide m.1 in
      (
        chop_str-IsChopped msg chop,
        rw (fill_exact_width, chop_str-width msg chop)
            (elim (Bool-cases (leb fill width)) [
              | inl x ↦ elim (Bool-cases (is_empty before && is_empty after)) [
                | inl y ↦
                    rw (x, y)
                      (omega (
                        arith,
                        is_empty-width before (ground (arith, y)),
                        is_empty-width after (ground (arith, y)),
                      ))
                | inr y ↦ rw (x, y) (between before m.1 after)
              ]
              | inr x ↦ elim (Bool-cases left) [
                | inl y ↦
                    rw (x, y)
                      (omega (
                        arith,
                        between before m.1 after,
                        exact_width-append (before ++ m.1 ++ after) (spaces (fill - width)),
                        exact_width-spaces narrow (fill - width),
                        not_leb fill width x,
                      ))
                | inr y ↦
                    rw (x, y)
                      (omega (
                        arith,
                        exact_width-append (spaces (fill - width)) before,
                        exact_width-append (spaces (fill - width) ++ before) m.1,
                        exact_width-append (spaces (fill - width) ++ before ++ m.1) after,
                        exact_width-spaces narrow (fill - width),
                        not_leb fill width x,
                      ))
              ]
            ]),
      )
