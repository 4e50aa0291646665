-- ===== src/Signature/Tests.antt =====
-- Outputs of rpmkeys, and what dnf/rpm/miscutils.py and dnf/base.py make of them.
use dnf.Base.{String, ◌≡◌, refl, ◌↔◌, true, false, some, [], ◌∷◌, List}
use dnf.Base.Text.{codes}
use dnf.Signature.{
  Line, classify, note, scan, conclude, conclude_scan, process_rpm_output, initial, final, exited,
  verify_package, is_fatal, SigCheck, sig_check_pkg, judge_signature, key_not_installed,
}
use dnf.Signature.Output.{answer_of, middle, process_rpm_output-answer}
use dnf.Signature.Verdicts.{IsAccepted, Means, verify_package-zero_iff, sig_check_pkg-Means}

program : Unit {0}
unfolding classify note scan conclude conclude_scan process_rpm_output initial final verify_package
    is_fatal sig_check_pkg judge_signature
program = tt

abbrev framed : List String → List Line
framed lines = codes "-:" ∷ framed_rest lines
  where
    framed_rest : List String → List Line
    framed_rest [] = [] ∷ []
    framed_rest (l ∷ ls) = codes l ∷ framed_rest ls

abbrev signed : List Line
signed =
    framed
      ("    Header V4 RSA/SHA256 Signature, key ID 1: OK" ∷ "    Header SHA256 digest: OK" ∷ [])

abbrev unknown_key : List Line
unknown_key =
    framed
      ("    Header V4 RSA/SHA256 Signature, key ID 1: NOKEY" ∷ "    Header SHA256 digest: OK" ∷ [])

process_rpm_output-signed :
    (process_rpm_output signed ≡ 0)
    × (process_rpm_output unknown_key ≡ 1)
    × (process_rpm_output (codes "-:" ∷ [] ∷ []) ≡ 2)
unfolding program
process_rpm_output-signed = (refl, refl, refl)

process_rpm_output-answer_example : process_rpm_output unknown_key ≡ answer_of (middle unknown_key)
process_rpm_output-answer_example = process_rpm_output-answer unknown_key

verify_package-zero_iff_example :
    (verify_package (some (exited 0, signed)) ≡ 0) ↔ IsAccepted (some (exited 0, signed))
verify_package-zero_iff_example = verify_package-zero_iff (some (exited 0, signed))

abbrev from_repo : SigCheck
from_repo = record {
  from_cmdline = false;
  localpkg_gpgcheck = false;
  repo_gpgcheck = true;
  repo_gpgkey = true;
}

sig_check_pkg-unknown_key :
    sig_check_pkg from_repo (some (exited 1, unknown_key)) ≡ some (1, key_not_installed)
unfolding program
sig_check_pkg-unknown_key = refl

sig_check_pkg-Means_example :
    Means from_repo
      (some (exited 1, unknown_key))
      (sig_check_pkg from_repo (some (exited 1, unknown_key)))
sig_check_pkg-Means_example = sig_check_pkg-Means from_repo (some (exited 1, unknown_key))
