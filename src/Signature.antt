-- ===== src/Signature.antt =====
-- dnf/rpm/miscutils.py and `Base._sig_check_pkg` of dnf/base.py: the check of a package's signature.
mod Output
mod Verdicts
mod Tests
use dnf.Base.{
  ℕ, zero, suc, ◌≤◌, String, ◌≡◌, Bool, true, false, not, ◌&&◌, ◌||◌, Option, none, some, List, [],
  ◌∷◌, length, ltb, leb, ◌==◌, ℕ_eq, if◌then◌else◌,
}
use dnf.Base.Text.{codes, ends_with, contains, starts_with}

-- A line of what rpmkeys prints, as bytes.
abbrev pub Line : Type 0
Line = List ℕ

-- The tests of the loop in `_process_rpm_output`, in their order.
pub data Kind : Type 0 where
  bad no_key not_trusted not_found trusted fine unknown : Kind

abbrev pub first_kind : (has_bad nokey nottrusted notfound ok ignature : Bool) → Kind
first_kind has_bad nokey nottrusted notfound ok ignature =
    if has_bad
    then bad
    else if nokey
    then no_key
    else if nottrusted
    then not_trusted
    else if notfound
    then not_found
    else if ok && ignature
    then trusted
    else if not ok
    then unknown
    else fine

pub classify : Line → Kind
unfolding contains ends_with
classify line =
    first_kind (contains (codes ": BAD") line) (ends_with (codes ": NOKEY") line)
      (ends_with (codes ": NOTTRUSTED") line) (ends_with (codes ": NOTFOUND") line)
      (ends_with (codes ": OK") line) (contains (codes "ignature,") line)

-- The four Booleans of the loop.
pub record Flags : Type 0 where
  pub trusted_sig : Bool
  pub missing_key : Bool
  pub not_trusted_sig : Bool
  pub not_signed : Bool

abbrev pub no_flags : Flags
no_flags = record {
  trusted_sig = false;
  missing_key = false;
  not_trusted_sig = false;
  not_signed = false;
}

-- One round; `none` is `return 2`.
pub note : Kind → Flags → Option Flags
note bad flags = none
note unknown flags = none
note no_key flags = some (record flags { missing_key = true })
note not_trusted flags = some (record flags { not_trusted_sig = true })
note not_found flags = some (record flags { not_signed = true })
note trusted flags = some (record flags { trusted_sig = true })
note fine flags = some flags

pub scan : Flags → List Line → Option Flags
scan flags [] = some flags
scan flags (line ∷ lines) = elim (note (classify line) flags) [
  | none ↦ none
  | some flags' ↦ scan flags' lines
]

-- What the flags come to behind the loop.
pub conclude : Flags → ℕ
conclude flags =
    if flags.missing_key
    then 1
    else if not flags.trusted_sig && flags.not_trusted_sig
    then 3
    else if flags.not_signed
    then 4
    else 0

-- `data[:-1]` and `data[-1]` of a list that is not empty.
pub initial : Line → List Line → List Line
initial line [] = []
initial line (next ∷ lines) = line ∷ initial next lines

pub final : Line → List Line → Line
final line [] = line
final line (next ∷ lines) = final next lines

abbrev is_nil : Line → Bool
is_nil [] = true
is_nil (c ∷ line) = false

abbrev same_line : Line → Line → Bool
same_line [] [] = true
same_line [] (d ∷ other) = false
same_line (c ∷ line) [] = false
same_line (c ∷ line) (d ∷ other) = c == d && same_line line other

pub conclude_scan : Option Flags → ℕ
unfolding conclude
conclude_scan none = 2
conclude_scan (some flags) = conclude flags

-- `_process_rpm_output`
pub process_rpm_output : List Line → ℕ
unfolding scan initial final conclude_scan
process_rpm_output (first ∷ second ∷ third ∷ lines) =
    if same_line first (codes "-:") && is_nil (final second (third ∷ lines))
    then conclude_scan (scan no_flags (initial second (third ∷ lines)))
    else 2
process_rpm_output _ = 2

-- `Popen.returncode`: an exit status, or the negative number of a signal.
pub data ReturnCode : Type 0 where
  exited signalled : ℕ → ReturnCode

pub is_fatal : ReturnCode → Bool
is_fatal (exited code) = leb 2 code
is_fatal (signalled signal) = true

abbrev is_failure : ReturnCode → Bool
is_failure (exited code) = not (code == 0)
is_failure (signalled signal) = true

-- `_verifyPackageUsingRpmkeys`. `run` is the finished process; `none`: rpmkeys is not found.
pub verify_package : Option (ReturnCode × List Line) → ℕ
unfolding is_fatal process_rpm_output
verify_package none = 2
verify_package (some (returncode, lines)) =
    if is_fatal returncode
    then 2
    else let ret = process_rpm_output lines in
      if not (ret == 0) then ret else if is_failure returncode then 2 else 0

-- What `_sig_check_pkg` reads of the package, the configuration and the package's repository.
pub record SigCheck : Type 0 where
  pub from_cmdline : Bool
  pub localpkg_gpgcheck : Bool
  pub repo_gpgcheck : Bool
  pub repo_gpgkey : Bool

pub data Message : Type 0 where
  no_message key_not_installed cannot_open key_not_trusted not_signed_message : Message

abbrev pub checks : SigCheck → Bool
checks c = if c.from_cmdline then c.localpkg_gpgcheck else c.repo_gpgcheck

abbrev pub hasgpgkey : SigCheck → Bool
hasgpgkey c = if c.from_cmdline then false else c.repo_gpgkey

-- The ladder over `sigresult`; `none`: no branch assigns `result`.
pub judge_signature : Bool → ℕ → Option (ℕ × Message)
judge_signature has_key sigresult =
    if sigresult == 0
    then some (0, no_message)
    else if sigresult == 1
    then some (if has_key then 1 else 2, key_not_installed)
    else if sigresult == 2
    then some (2, cannot_open)
    else if sigresult == 3
    then some (if has_key then 1 else 2, key_not_trusted)
    else if sigresult == 4
    then some (2, not_signed_message)
    else none

-- `_sig_check_pkg`, where rpmkeys answers `run`.
pub sig_check_pkg : SigCheck → Option (ReturnCode × List Line) → Option (ℕ × Message)
unfolding judge_signature
sig_check_pkg c run =
    if checks c then judge_signature (hasgpgkey c) (verify_package run) else some (0, no_message)
