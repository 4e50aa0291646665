-- ===== src/Signature/Output.antt =====
-- `_process_rpm_output` of dnf/rpm/miscutils.py against a description without its loop.
use dnf.Base.{
  ℕ, ◌≡◌, refl, Bool, true, false, not, ◌&&◌, ◌||◌, Option, none, some, List, [], ◌∷◌, any, ℕ_eq,
  if◌then◌else◌, arith, Option-cases, Bool-cases, inl, inr,
}
use dnf.Signature.{
  Line, Kind, bad, no_key, not_trusted, not_found, trusted, fine, unknown, classify, Flags,
  no_flags, note, scan, conclude, conclude_scan, initial, final, process_rpm_output, is_nil,
  same_line,
}
use dnf.Base.Text.{codes}

abbrev pub is_kind : Kind → Kind → Bool
is_kind bad bad = true
is_kind no_key no_key = true
is_kind not_trusted not_trusted = true
is_kind not_found not_found = true
is_kind trusted trusted = true
is_kind fine fine = true
is_kind unknown unknown = true
is_kind _ _ = false

-- Some line is of a kind.
abbrev pub some_line : Kind → List Line → Bool
some_line k lines = any (λ line. is_kind k (classify line)) lines

abbrev pub ladder : Bool → Bool → Bool → Bool → Bool → ℕ
ladder fatal no_key_seen not_trusted_seen trusted_seen not_found_seen =
    if fatal
    then 2
    else if no_key_seen
    then 1
    else if not trusted_seen && not_trusted_seen
    then 3
    else if not_found_seen
    then 4
    else 0

-- The answer by the kinds that occur, whatever the order of the lines.
abbrev pub answer : List Line → ℕ
answer lines =
    ladder (some_line bad lines || some_line unknown lines) (some_line no_key lines)
      (some_line not_trusted lines) (some_line trusted lines) (some_line not_found lines)

-- The flags that stand before the loop count as lines do.
abbrev answer_after : Flags → List Line → ℕ
answer_after flags lines =
    ladder (some_line bad lines || some_line unknown lines)
      (flags.missing_key || some_line no_key lines)
      (flags.not_trusted_sig || some_line not_trusted lines)
      (flags.trusted_sig || some_line trusted lines) (flags.not_signed || some_line not_found lines)

or_true : (b : Bool) → b || true ≡ true
or_true true = refl
or_true false = refl

abbrev scan_rest : List Line → Option Flags → Option Flags
scan_rest lines none = none
scan_rest lines (some flags) = scan flags lines

scan-cons :
    (flags : Flags) (line : Line) (lines : List Line)
    → scan flags (line ∷ lines) ≡ scan_rest lines (note (classify line) flags)
unfolding scan
scan-cons flags line lines = elim (Option-cases (note (classify line) flags)) [
  | inl e ↦ rw (e, scan) refl
  | inr (flags', e) ↦ rw (e, scan) refl
]

-- One round: a line of kind `k` in front.
abbrev answer_behind : Kind → Flags → List Line → ℕ
answer_behind k flags lines =
    ladder
      ((is_kind bad k || some_line bad lines) || (is_kind unknown k || some_line unknown lines))
      (flags.missing_key || (is_kind no_key k || some_line no_key lines))
      (flags.not_trusted_sig || (is_kind not_trusted k || some_line not_trusted lines))
      (flags.trusted_sig || (is_kind trusted k || some_line trusted lines))
      (flags.not_signed || (is_kind not_found k || some_line not_found lines))

round-answer :
    (k : Kind) (flags : Flags) (lines : List Line)
    → ((f : Flags) → conclude_scan (scan f lines) ≡ answer_after f lines)
    → conclude_scan (scan_rest lines (note k flags)) ≡ answer_behind k flags lines
unfolding note conclude_scan
round-answer bad flags lines ih = refl
round-answer unknown flags lines ih = rw (or_true (some_line bad lines)) refl
round-answer no_key flags lines ih =
    rw (or_true flags.missing_key) (ih (record flags { missing_key = true }))
round-answer not_trusted flags lines ih =
    rw (or_true flags.not_trusted_sig) (ih (record flags { not_trusted_sig = true }))
round-answer not_found flags lines ih =
    rw (or_true flags.not_signed) (ih (record flags { not_signed = true }))
round-answer trusted flags lines ih =
    rw (or_true flags.trusted_sig) (ih (record flags { trusted_sig = true }))
round-answer fine flags lines ih = ih flags

scan-answer :
    (lines : List Line) (flags : Flags)
    → conclude_scan (scan flags lines) ≡ answer_after flags lines
unfolding scan conclude_scan conclude
scan-answer [] flags = ground arith
scan-answer (line ∷ lines) flags =
    rw scan-cons (round-answer (classify line) flags lines (scan-answer lines))

-- Is the output framed by a line "-:" and an empty one?
abbrev pub middle : List Line → Option (List Line)
middle (first ∷ second ∷ third ∷ lines) =
    if same_line first (codes "-:") && is_nil (final second (third ∷ lines))
    then some (initial second (third ∷ lines))
    else none
middle _ = none

abbrev pub answer_of : Option (List Line) → ℕ
answer_of none = 2
answer_of (some lines) = answer lines

-- The loop with its flags and early returns gives the answer that the kinds of the lines between
-- the frame determine: 2 without the frame, or with a BAD or an unknown line; else 1 with a NOKEY
-- line; else 3 with a NOTTRUSTED line and no trusted signature; else 4 with a NOTFOUND line; else 0.
pub process_rpm_output-answer :
    (lines : List Line) → process_rpm_output lines ≡ answer_of (middle lines)
unfolding process_rpm_output
process_rpm_output-answer [] = refl
process_rpm_output-answer (a ∷ []) = refl
process_rpm_output-answer (a ∷ b ∷ []) = refl
process_rpm_output-answer (a ∷ b ∷ c ∷ lines) =
    elim (Bool-cases (same_line a (codes "-:") && is_nil (final b (c ∷ lines)))) [
      | inl framed ↦ rw framed (scan-answer (initial b (c ∷ lines)) no_flags)
      | inr broken ↦ rw broken refl
    ]
