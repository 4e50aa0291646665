-- ===== src/Texts/Tests.antt =====
-- Texts of narrow and of wide characters.
use dnf.Base.{ℕ, Bool, true, some, [], ◌∷◌, ◌++◌, leb, ◌≡◌, refl, ◌+◌}
use dnf.Base.Text.{codes}
use dnf.Texts.{Text, exact_width, chop_loop, chop_str, fill_exact_width, select_short_long}
use dnf.Texts.Widths.{IsChopped, wider, fill_exact_width-IsFilled}
use dnf.Texts.Wrap.{
  rstrip, lstrip, split, expand_tabs, join_lines, indent_at_beg, words_loop, put_line, wrap_line,
  wrap_lines, textwrap_fill,
}
use dnf.Texts.Wrap.Visible.{visible}
use dnf.Texts.Wrap.Kept.{textwrap_fill-visible}

program : Unit {0}
unfolding exact_width chop_loop chop_str fill_exact_width select_short_long rstrip lstrip split
    expand_tabs join_lines indent_at_beg words_loop put_line wrap_line wrap_lines textwrap_fill
program = tt

abbrev is_wide : ℕ → Bool
is_wide c = leb 12288 c

-- A wide character between two narrow ones.
abbrev mixed : Text
mixed = 97 ∷ 27721 ∷ 98 ∷ []

fill_exact_width-mixed :
    (chop_str is_wide mixed (some 2) ≡ (1, 97 ∷ []))
    × (fill_exact_width is_wide mixed 4 (some 3) true [] [] ≡ 97 ∷ 27721 ∷ 32 ∷ [])
    × (select_short_long is_wide 3 (97 ∷ []) mixed ≡ 97 ∷ [])
unfolding program
fill_exact_width-mixed = (refl, refl, refl)

fill_exact_width-IsFilled_example :
    IsChopped is_wide mixed (some 3)
    × (exact_width is_wide (fill_exact_width is_wide mixed 4 (some 3) true (42 ∷ []) [])
        ≡ wider is_wide 4 (exact_width is_wide (chop_str is_wide mixed (some 3)).1)
          + exact_width is_wide (42 ∷ [])
          + exact_width is_wide [])
fill_exact_width-IsFilled_example =
    fill_exact_width-IsFilled is_wide refl mixed 4 (some 3) true (42 ∷ []) []

abbrev listing : Text
listing = codes "one two three" ++ 10 ∷ codes "- a list of words" ++ 10 ∷ []

textwrap_fill-listing :
    textwrap_fill is_wide listing 9 [] []
    ≡ codes "one two"
      ++ 10 ∷ codes "three"
      ++ 10 ∷ codes "- a list"
      ++ 10 ∷ codes "  of"
      ++ 10 ∷ codes "  words"
unfolding program
textwrap_fill-listing = refl

textwrap_fill-visible_example :
    visible (textwrap_fill is_wide listing 9 [] (32 ∷ [])) ≡ visible listing
textwrap_fill-visible_example = textwrap_fill-visible is_wide listing 9 [] (32 ∷ []) refl refl
