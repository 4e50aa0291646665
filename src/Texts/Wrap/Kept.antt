-- ===== src/Texts/Wrap/Kept.antt =====
-- What a wrapped text keeps.
use dnf.Base.{
  ℕ, Bool, true, false, not, ◌&&◌, List, [], ◌∷◌, ◌++◌, length, ltb, leb, ◌==◌, ℕ_eq, if◌then◌else◌,
  ◌≡◌, refl, ap, sym, arith, ◌∙◌, Bool-cases, inl, inr, append_assoc, append-nil,
}
use dnf.Texts.{Text, spaces, exact_width}
use dnf.Texts.Wrap.{
  rstrip, lstrip, split, expand_tabs, Wrapping, is_bullet, indent_at_beg, words_loop, forces_nl,
  break_line, reached, put_text, put_spaces, put_line, wrap_line, wrap_lines, textwrap_fill,
}
use dnf.Texts.Wrap.Visible.{
  visible, visible-append, visible-spaces, visible-cons_blank, same_blank, visible-rstrip,
  visible-lstrip, visible_all, visible_all-append, visible_all-split, visible-expand_tabs,
  visible-join_lines,
}

not_longer : (c : ℕ) (line : Text) → ¬ (0 ≡ length (c ∷ line))
not_longer c line e = omega (arith, e)

module _ (is_wide : ℕ → Bool) where
  indent_at_beg-zero :
      (c : ℕ) (line : Text) → (c == 32) ≡ false → (indent_at_beg is_wide (c ∷ line)).0 ≡ 0
  unfolding indent_at_beg
  indent_at_beg-zero c line x =
      let nxt = indent_at_beg is_wide line in
      elim (Bool-cases (is_bullet is_wide c && not ((if nxt.1 == 0 then nxt.0 else nxt.1) == 0))) [
        | inl y ↦ rw (indent_at_beg, x, y) refl
        | inr y ↦ rw (indent_at_beg, x, y) refl
      ]

  -- A line that is indented up to its end is blank.
  indent_at_beg-blank :
      (line : Text) → (indent_at_beg is_wide line).0 ≡ length line → visible line ≡ []
  unfolding indent_at_beg
  indent_at_beg-blank [] e = refl
  indent_at_beg-blank (c ∷ line) e = elim (Bool-cases (c == 32)) [
    | inl x ↦
        visible-cons_blank c line (same_blank 32 refl c x)
        ∙ indent_at_beg-blank line (omega (arith, rw (x, indent_at_beg) at e))
    | inr x ↦ elim (not_longer c line (sym (indent_at_beg-zero c line x) ∙ e)) [ ]
  ]

  kept-visible :
      (line : Text)
      → visible (if (indent_at_beg is_wide line).0 == length line then [] else line) ≡ visible line
  kept-visible line = elim (Bool-cases ((indent_at_beg is_wide line).0 == length line)) [
    | inl x ↦ rw x (
        sym (
          indent_at_beg-blank line
            ((ℕ_eq.beq_iff (indent_at_beg is_wide line).0 (length line)).0 x)))
    | inr x ↦ rw x refl
  ]

  lstrip_if-visible :
      (b : Bool) (line : Text) → visible (if b then lstrip 32 line else line) ≡ visible line
  lstrip_if-visible true line = visible-lstrip 32 refl line
  lstrip_if-visible false line = refl

  module _ (width : ℕ) (subsequent_indent : Text) (hidden : visible subsequent_indent ≡ []) where
    -- What can be seen of the lines so far and of the line that is not finished.
    abbrev seen : Wrapping → Text
    seen s = visible_all s.ret ++ visible s.indent

    words_loop-visible :
        (spcs : ℕ) (words ret : List Text) (line : Text)
        → let r = words_loop is_wide width subsequent_indent spcs words ret line in
          visible_all r.0 ++ visible r.1 ≡ visible_all ret ++ visible line ++ visible_all words
    unfolding words_loop
    words_loop-visible spcs [] ret line = sym (append-nil (visible_all ret ++ visible line))
    words_loop-visible spcs (word ∷ words) ret line =
        let longer = line ++ word ++ 32 ∷ [] in
        let next = subsequent_indent ++ spaces spcs ++ word ++ 32 ∷ [] in
        elim (Bool-cases (
          ltb width (exact_width is_wide (line ++ word))
          && ltb (exact_width is_wide subsequent_indent) (exact_width is_wide line))) [
            | inl x ↦
                rw (words_loop, x)
                  (words_loop-visible spcs words (ret ++ rstrip 32 line ∷ []) next
                    ∙ simp
                        (
                          visible_all-append,
                          visible-append,
                          visible-rstrip 32 refl,
                          visible-spaces,
                          hidden,
                          append_assoc,
                          append-nil,
                        )
                        refl)
            | inr x ↦
                rw (words_loop, x)
                  (words_loop-visible spcs words ret longer
                    ∙ simp (visible-append, append_assoc, append-nil) refl)
          ]

    break_line-seen : (s : Wrapping) → seen (break_line is_wide width subsequent_indent s) ≡ seen s
    break_line-seen s =
        simp (visible_all-append, visible-rstrip 32 refl, hidden, append_assoc, append-nil) refl

    put_line-seen :
        (s : Wrapping) (line : Text) (spcs : ℕ)
        → seen (put_line is_wide width subsequent_indent s line spcs) ≡ seen s ++ visible line
    unfolding put_line
    put_line-seen s line spcs =
        elim (Bool-cases (leb (exact_width is_wide (s.indent ++ line)) width)) [
          | inl x ↦
              rw (put_line, x)
                (simp (visible_all-append, visible-append, hidden, append_assoc, append-nil) refl)
          | inr x ↦
              rw (put_line, x)
                (simp (visible-append, visible-rstrip 32 refl, append_assoc, append-nil)
                  (words_loop-visible spcs (split 32 line) s.ret s.indent
                    ∙ simp (visible_all-split 32 refl, append_assoc) refl))
        ]

    reached-seen :
        (old : Wrapping) (line : Text)
        → seen (reached is_wide width subsequent_indent old line) ≡ seen old
    reached-seen old line =
        let beg = indent_at_beg is_wide line in
        elim (Bool-cases (forces_nl is_wide width subsequent_indent old line beg.0 beg.1)) [
          | inl x ↦ rw x (break_line-seen old)
          | inr x ↦ rw x refl
        ]

    put_text-visible :
        (old : Wrapping) (line : Text)
        → let s = reached is_wide width subsequent_indent old line in
          visible (put_text is_wide width subsequent_indent s line) ≡ visible line
    put_text-visible old line =
        let s = reached is_wide width subsequent_indent old line in
        lstrip_if-visible s.wrap_last
          (if (indent_at_beg is_wide line).0 == length line then [] else line)
        ∙ kept-visible line

    wrap_line-seen :
        (old : Wrapping) (text : Text)
        → seen (wrap_line is_wide width subsequent_indent old text) ≡ seen old ++ visible text
    unfolding wrap_line
    wrap_line-seen old text =
        let line = rstrip 32 text in
        let s = reached is_wide width subsequent_indent old line in
        let put = put_text is_wide width subsequent_indent s line in
        put_line-seen s put (put_spaces is_wide width subsequent_indent s)
        ∙ ap (λ t. t ++ visible put) (reached-seen old line)
        ∙ ap (λ t. seen old ++ t) (put_text-visible old line ∙ visible-rstrip 32 refl text)

    wrap_lines-seen :
        (s : Wrapping) (lines : List Text)
        → seen (wrap_lines is_wide width subsequent_indent s lines) ≡ seen s ++ visible_all lines
    unfolding wrap_lines
    wrap_lines-seen s [] = sym (append-nil (seen s))
    wrap_lines-seen s (line ∷ lines) =
        wrap_lines-seen (wrap_line is_wide width subsequent_indent s line) lines
        ∙ ap (λ t. t ++ visible_all lines) (wrap_line-seen s line)
        ∙ append_assoc (seen s) (visible line) (visible_all lines)

    -- A line that is not to be wrapped on holds nothing that can be seen.
    abbrev IsFinished : Wrapping → Type 0
    IsFinished s = s.wrap_last ≡ false → visible s.indent ≡ []

    finished-visible :
        (s : Wrapping)
        → IsFinished s
        → visible_all (if s.wrap_last then s.ret ++ rstrip 32 s.indent ∷ [] else s.ret) ≡ seen s
    finished-visible s h = elim (Bool-cases s.wrap_last) [
      | inl x ↦ rw x (simp (visible_all-append, visible-rstrip 32 refl, append-nil) refl)
      | inr x ↦ rw (x, h x) (sym (append-nil (visible_all s.ret)))
    ]

    put_line-IsFinished :
        (s : Wrapping) (line : Text) (spcs : ℕ)
        → IsFinished (put_line is_wide width subsequent_indent s line spcs)
    unfolding put_line
    put_line-IsFinished s line spcs =
        elim (Bool-cases (leb (exact_width is_wide (s.indent ++ line)) width)) [
          | inl x ↦ rw (put_line, x) (λ e. hidden)
          | inr x ↦ rw (put_line, x) (λ e. ground (arith, e))
        ]

    wrap_lines-IsFinished :
        (s : Wrapping) (lines : List Text)
        → IsFinished s
        → IsFinished (wrap_lines is_wide width subsequent_indent s lines)
    unfolding wrap_lines wrap_line
    wrap_lines-IsFinished s [] h = h
    wrap_lines-IsFinished s (line ∷ lines) h =
        let r = reached is_wide width subsequent_indent s (rstrip 32 line) in
        wrap_lines-IsFinished (wrap_line is_wide width subsequent_indent s line) lines (
          put_line-IsFinished r (put_text is_wide width subsequent_indent r (rstrip 32 line))
            (put_spaces is_wide width subsequent_indent r))

  -- Whatever the width, everything of a text that can be seen stands in the wrapped text, in its
  -- order, and nothing else does, where the two indents are blank.
  pub textwrap_fill-visible :
      (text : Text) (width : ℕ) (initial_indent subsequent_indent : Text)
      → visible initial_indent ≡ []
      → visible subsequent_indent ≡ []
      → visible (textwrap_fill is_wide text width initial_indent subsequent_indent) ≡ visible text
  unfolding textwrap_fill
  textwrap_fill-visible text width initial_indent subsequent_indent h k =
      let start : Wrapping = record {
        ret = [];
        indent = initial_indent;
        wrap_last = false;
        csab = 0;
        cspc_indent = 0;
      } in
      let lines = split 10 (expand_tabs (rstrip 10 text)) in
      let s = wrap_lines is_wide width subsequent_indent start lines in
      visible-join_lines (if s.wrap_last then s.ret ++ rstrip 32 s.indent ∷ [] else s.ret)
      ∙ finished-visible width subsequent_indent k s
          (wrap_lines-IsFinished width subsequent_indent k start lines (λ e. h))
      ∙ wrap_lines-seen width subsequent_indent k start lines
      ∙ rw h (
          visible_all-split 10 refl (expand_tabs (rstrip 10 text))
          ∙ visible-expand_tabs (rstrip 10 text)
          ∙ visible-rstrip 10 refl text)
