-- ===== src/Texts/Wrap.antt =====
-- `textwrap_fill` of dnf/i18n.py.
pub mod Visible
pub mod Kept
use dnf.Base.{
  ℕ, zero, suc, ◌+◌, Bool, true, false, not, ◌&&◌, ◌||◌, List, [], ◌∷◌, ◌++◌, mem, length, ltb, leb,
  ◌==◌, ℕ_eq, if◌then◌else◌,
}
use dnf.Texts.{Text, is_empty, spaces, exact_width}

-- `text.rstrip(c)` and `text.lstrip(c)`
unfoldable pub rstrip : ℕ → Text → Text
rstrip c [] = []
rstrip c (d ∷ text) = let rest = rstrip c text in if is_empty rest && (d == c) then [] else d ∷ rest

unfoldable pub lstrip : ℕ → Text → Text
lstrip c [] = []
lstrip c (d ∷ text) = let rest = lstrip c text in if d == c then rest else d ∷ text

abbrev pub on_first : ℕ → List Text → List Text
on_first c [] = []
on_first c (word ∷ words) = (c ∷ word) ∷ words

-- `text.split(c)`
unfoldable pub split : ℕ → Text → List Text
split c [] = [] ∷ []
split c (d ∷ text) = let rest = split c text in if d == c then [] ∷ rest else on_first d rest

-- `text.replace('\t', ' ' * 8)`
unfoldable pub expand_tabs : Text → Text
expand_tabs [] = []
expand_tabs (c ∷ text) =
    let rest = expand_tabs text in if c == 9 then spaces 8 ++ rest else c ∷ rest

-- `'\n'.join(lines)`
unfoldable pub join_lines : List Text → Text
join_lines [] = []
join_lines (line ∷ []) = line
join_lines (line ∷ next ∷ lines) = line ++ 10 ∷ join_lines (next ∷ lines)

-- The state of the loop over the lines.
pub record Wrapping : Type 0 where
  pub ret : List Text
  pub indent : Text
  pub wrap_last : Bool
  pub csab : ℕ
  pub cspc_indent : ℕ

module _ (is_wide : ℕ → Bool) where
  -- `-`, `*`, `.` and `o`: what both lists of bullets have.
  abbrev pub is_bullet : ℕ → Bool
  is_bullet c = mem c (45 ∷ 42 ∷ 46 ∷ 111 ∷ []) && not (is_wide c)

  -- `_indent_at_beg`: a space before a line adds one to its two numbers, the second where it is not
  -- 0, so the loop that counts them is this function as well.
  unfoldable pub indent_at_beg : Text → ℕ × ℕ
  indent_at_beg [] = (0, 0)
  indent_at_beg (c ∷ line) =
      let (count, list) = indent_at_beg line in
      let nxt = if list == 0 then count else list in
      if c == 32
      then (suc count, if list == 0 then 0 else suc list)
      else if is_bullet c && not (nxt == 0)
      then (0, 1 + nxt)
      else (0, 0)

  module _ (width : ℕ) (subsequent_indent : Text) where
    -- The loop over the words: the lines that are full, and the last one.
    unfoldable pub words_loop : (spcs : ℕ) → List Text → List Text → Text → List Text × Text
    words_loop spcs [] ret line = (ret, line)
    words_loop spcs (word ∷ words) ret line =
        let full =
          words_loop spcs words (ret ++ rstrip 32 line ∷ [])
            (subsequent_indent ++ spaces spcs ++ word ++ 32 ∷ []) in
        let fits = words_loop spcs words ret (line ++ word ++ 32 ∷ []) in
        if ltb width (exact_width is_wide (line ++ word))
          && ltb (exact_width is_wide subsequent_indent) (exact_width is_wide line)
        then full
        else fits

    -- Is a new line to be begun?
    abbrev pub forces_nl : Wrapping → Text → ℕ → ℕ → Bool
    forces_nl s line csab cspc_indent =
        s.wrap_last
        && (not (cspc_indent == 0)
            || (csab == length line)
            || ((s.cspc_indent == 0) && leb 4 csab && not (csab == s.csab)))

    abbrev pub break_line : Wrapping → Wrapping
    break_line s = record s {
      ret = s.ret ++ rstrip 32 s.indent ∷ [];
      indent = subsequent_indent;
      wrap_last = false;
    }

    -- What follows once it is known where a line goes on.
    unfoldable pub put_line : Wrapping → Text → (spcs : ℕ) → Wrapping
    unfolding rstrip split words_loop
    put_line s line spcs =
        if leb (exact_width is_wide (s.indent ++ line)) width
        then record s {
          ret = s.ret ++ (s.indent ++ line) ∷ [];
          indent = subsequent_indent;
          wrap_last = false;
        }
        else let (ret, last) = words_loop spcs (split 32 line) s.ret s.indent in
          record s { ret = ret; indent = rstrip 32 last ++ 32 ∷ []; wrap_last = true }

    -- The state when a line is reached, and what is put: the line, and the indent of its next ones.
    abbrev pub reached : Wrapping → Text → Wrapping
    reached old line =
        let (csab, cspc) = indent_at_beg line in
        let s = if forces_nl old line csab cspc then break_line old else old in
        record s { csab = csab; cspc_indent = if s.wrap_last then old.cspc_indent else cspc }

    abbrev pub put_text : Wrapping → Text → Text
    put_text s line =
        let kept = if s.csab == length line then [] else line in
        if s.wrap_last then lstrip 32 kept else kept

    abbrev pub put_spaces : Wrapping → ℕ
    put_spaces s = if (s.cspc_indent == 0) && leb 4 s.csab then s.csab else s.cspc_indent

    -- The body of the loop over the lines.
    unfoldable pub wrap_line : Wrapping → Text → Wrapping
    unfolding rstrip lstrip indent_at_beg put_line
    wrap_line old text =
        let line = rstrip 32 text in
        let s = reached old line in put_line s (put_text s line) (put_spaces s)

    unfoldable pub wrap_lines : Wrapping → List Text → Wrapping
    unfolding wrap_line
    wrap_lines s [] = s
    wrap_lines s (line ∷ lines) = wrap_lines (wrap_line s line) lines

  unfoldable pub textwrap_fill :
      Text → (width : ℕ) → (initial_indent subsequent_indent : Text) → Text
  unfolding rstrip expand_tabs split wrap_lines join_lines
  textwrap_fill text width initial_indent subsequent_indent =
      let start : Wrapping = record {
        ret = [];
        indent = initial_indent;
        wrap_last = false;
        csab = 0;
        cspc_indent = 0;
      } in
      let s = wrap_lines width subsequent_indent start (split 10 (expand_tabs (rstrip 10 text))) in
      join_lines (if s.wrap_last then s.ret ++ rstrip 32 s.indent ∷ [] else s.ret)
