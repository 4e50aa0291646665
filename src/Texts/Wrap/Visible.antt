-- ===== src/Texts/Wrap/Visible.antt =====
-- What can be seen of a text, and what the string operations do to it.
use dnf.Base.{
  ℕ, zero, suc, Bool, true, ◌&&◌, ◌||◌, List, [], ◌∷◌, ◌++◌, ◌==◌, ℕ_eq, if◌then◌else◌, ◌≡◌, refl,
  ap, sym, arith, ◌∙◌, Bool-cases, inl, inr, append_assoc, append-nil,
}
use dnf.Texts.{Text, is_empty, spaces}
use dnf.Texts.Wrap.{rstrip, lstrip, on_first, split, expand_tabs, join_lines}

-- Tabs, ends of lines and spaces.
abbrev pub is_blank : ℕ → Bool
is_blank c = (c == 9) || (c == 10) || (c == 32)

-- What can be seen of a text.
abbrev pub visible : Text → Text
visible [] = []
visible (c ∷ text) = if is_blank c then visible text else c ∷ visible text

pub visible-append : (xs ys : Text) → visible (xs ++ ys) ≡ visible xs ++ visible ys
visible-append [] ys = refl
visible-append (c ∷ xs) ys = elim (Bool-cases (is_blank c)) [
  | inl x ↦ rw (x, visible-append xs ys) refl
  | inr x ↦ rw (x, visible-append xs ys) refl
]

pub visible-spaces : (n : ℕ) → visible (spaces n) ≡ []
visible-spaces zero = refl
visible-spaces (suc n) = visible-spaces n

pub is_empty-nil : (xs : Text) → is_empty xs ≡ true → xs ≡ []
is_empty-nil [] e = refl
is_empty-nil (c ∷ xs) e = ground (arith, e)

pub visible-cons_blank :
    (c : ℕ) (text : Text) → is_blank c ≡ true → visible (c ∷ text) ≡ visible text
visible-cons_blank c text e = rw e refl

module _ (c : ℕ) (blank : is_blank c ≡ true) where
  pub same_blank : (d : ℕ) → (d == c) ≡ true → is_blank d ≡ true
  same_blank d e = ground (arith, e, blank, ℕ_eq.beq_iff d c)

  pub visible-rstrip : (text : Text) → visible (rstrip c text) ≡ visible text
  unfolding rstrip
  visible-rstrip [] = refl
  visible-rstrip (d ∷ text) = elim (Bool-cases (is_empty (rstrip c text) && (d == c))) [
    | inl x ↦
        rw (rstrip, x)
          (ap visible (sym (is_empty-nil (rstrip c text) (ground (arith, x))))
            ∙ visible-rstrip text
            ∙ sym (visible-cons_blank d text (same_blank d (ground (arith, x)))))
    | inr x ↦ elim (Bool-cases (is_blank d)) [
      | inl y ↦ rw (rstrip, x, y) (visible-rstrip text)
      | inr y ↦ rw (rstrip, x, y, visible-rstrip text) refl
    ]
  ]

  pub visible-lstrip : (text : Text) → visible (lstrip c text) ≡ visible text
  unfolding lstrip
  visible-lstrip [] = refl
  visible-lstrip (d ∷ text) = elim (Bool-cases (d == c)) [
    | inl x ↦
        rw (lstrip, x) (visible-lstrip text ∙ sym (visible-cons_blank d text (same_blank d x)))
    | inr x ↦ rw (lstrip, x) refl
  ]

-- The lines of a text, one after the other.
abbrev pub visible_all : List Text → Text
visible_all [] = []
visible_all (line ∷ lines) = visible line ++ visible_all lines

pub visible_all-append :
    (xs ys : List Text) → visible_all (xs ++ ys) ≡ visible_all xs ++ visible_all ys
visible_all-append [] ys = refl
visible_all-append (x ∷ xs) ys =
    rw (visible_all-append xs ys) (sym (append_assoc (visible x) (visible_all xs) (visible_all ys)))

pub on_first-cons : (d : ℕ) (words : List Text) → ¬ (words ≡ []) → ¬ (on_first d words ≡ [])
on_first-cons d [] h = λ e. h refl
on_first-cons d (w ∷ ws) h = λ e. ground (arith, e)

pub split-ne_nil : (c : ℕ) (text : Text) → ¬ (split c text ≡ [])
unfolding split
split-ne_nil c [] = λ e. ground (arith, e)
split-ne_nil c (d ∷ text) = elim (Bool-cases (d == c)) [
  | inl x ↦ rw (split, x) (λ e. ground (arith, e))
  | inr x ↦ rw (split, x) (on_first-cons d (split c text) (split-ne_nil c text))
]

pub visible_all-on_first :
    (d : ℕ) (words : List Text)
    → ¬ (words ≡ [])
    → visible_all (on_first d words) ≡ visible (d ∷ []) ++ visible_all words
visible_all-on_first d [] h = elim (h refl) [ ]
visible_all-on_first d (w ∷ ws) h = elim (Bool-cases (is_blank d)) [
  | inl x ↦ rw x refl
  | inr x ↦ rw x refl
]

pub visible_all-split :
    (c : ℕ) → is_blank c ≡ true → (text : Text) → visible_all (split c text) ≡ visible text
unfolding split
visible_all-split c blank [] = refl
visible_all-split c blank (d ∷ text) = elim (Bool-cases (d == c)) [
  | inl x ↦
      rw (split, x)
        (visible_all-split c blank text ∙ sym (visible-cons_blank d text (same_blank c blank d x)))
  | inr x ↦
      rw (split, x)
        (visible_all-on_first d (split c text) (split-ne_nil c text)
          ∙ ap (λ t. visible (d ∷ []) ++ t) (visible_all-split c blank text)
          ∙ sym (visible-append (d ∷ []) text))
]

pub visible-expand_tabs : (text : Text) → visible (expand_tabs text) ≡ visible text
unfolding expand_tabs
visible-expand_tabs [] = refl
visible-expand_tabs (c ∷ text) = elim (Bool-cases (c == 9)) [
  | inl x ↦ rw (expand_tabs, x) (visible-expand_tabs text)
  | inr x ↦ elim (Bool-cases (is_blank c)) [
    | inl y ↦ rw (expand_tabs, y, x, y) (visible-expand_tabs text)
    | inr y ↦ rw (expand_tabs, y, x, y, visible-expand_tabs text) refl
  ]
]

pub visible-join_lines : (lines : List Text) → visible (join_lines lines) ≡ visible_all lines
unfolding join_lines
visible-join_lines [] = refl
visible-join_lines (line ∷ []) = sym (append-nil (visible line))
visible-join_lines (line ∷ next ∷ lines) =
    visible-append line (10 ∷ join_lines (next ∷ lines))
    ∙ ap (λ t. visible line ++ t) (visible-join_lines (next ∷ lines))
