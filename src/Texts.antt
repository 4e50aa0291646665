-- ===== src/Texts.antt =====
-- The widths of texts of dnf/i18n.py: `chop_str` to `select_short_long`. A text is the list of its
-- code points.
pub mod Widths
pub mod Wrap
mod Tests
use dnf.Base.{
  ℕ, zero, suc, ◌+◌, ◌-◌, Bool, true, false, ◌&&◌, Option, none, some, List, [], ◌∷◌, ◌++◌, ltb,
  leb, ◌==◌, ℕ_eq, if◌then◌else◌,
}

abbrev pub Text : Type 0
Text = List ℕ

abbrev pub is_empty : Text → Bool
is_empty [] = true
is_empty (c ∷ text) = false

-- `" " * n`
abbrev pub spaces : ℕ → Text
spaces zero = []
spaces (suc n) = 32 ∷ spaces n

-- `unicodedata.east_asian_width(c) in ('W', 'F')`
module _ (is_wide : ℕ → Bool) where
  abbrev pub exact_width_char : ℕ → ℕ
  exact_width_char c = if is_wide c then 2 else 1

  unfoldable pub exact_width : Text → ℕ
  exact_width [] = 0
  exact_width (c ∷ msg) = exact_width_char c + exact_width msg

  -- The loop of `chop_str`.
  unfoldable pub chop_loop : ℕ → Text → ℕ → Text → ℕ × Text
  chop_loop chop [] width chopped_msg = (width, chopped_msg)
  chop_loop chop (char ∷ msg) width chopped_msg =
      let rest = chop_loop chop msg (width + exact_width_char char) (chopped_msg ++ char ∷ []) in
      if ltb chop (width + exact_width_char char) then (width, chopped_msg) else rest

  unfoldable pub chop_str : Text → Option ℕ → ℕ × Text
  unfolding exact_width chop_loop
  chop_str msg none = (exact_width msg, msg)
  chop_str msg (some chop) = chop_loop chop msg 0 []

  unfoldable pub fill_exact_width :
      Text → (fill : ℕ) → (chop : Option ℕ) → (left : Bool) → (before after : Text) → Text
  unfolding chop_str
  fill_exact_width text fill chop left before after =
      let (width, msg) = chop_str text chop in
      let extra = spaces (fill - width) in
      if leb fill width
      then if is_empty before && is_empty after then msg else before ++ msg ++ after
      else if left
      then before ++ msg ++ after ++ extra
      else extra ++ before ++ msg ++ after

  unfoldable pub select_short_long : (width : ℕ) → (msg_short msg_long : Text) → Text
  unfolding exact_width
  select_short_long width msg_short msg_long =
      let width_short = exact_width msg_short in
      let width_long = exact_width msg_long in
      if width_short == width_long
      then msg_long
      else if ltb width_long width_short
      then if leb width_short width then msg_short else msg_long
      else if leb width_long width
      then msg_long
      else msg_short
