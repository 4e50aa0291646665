-- ===== src/Download/Tests.antt =====
-- Downloads of two packages, one of them by a delta whose rebuild fails at first.
use dnf.Base.{ltb, if◌then◌else◌, ℕ, true, false, List, [], ◌∷◌, ◌≡◌, refl, arith, ℕ_eq}
use dnf.Download.{
  Payload, Report, no_error, target_errors, download_payloads, bandwidth_used, update_saving,
  finished, retry_loop, download_remote_payloads,
}
use dnf.Download.Retries.{
  EndsWithin, EndsEmpty, download_remote_payloads-EndsWithin, download_remote_payloads-EndsEmpty,
}

program : Unit {0}
unfolding target_errors download_payloads bandwidth_used update_saving retry_loop
    download_remote_payloads
program = tt

-- The rebuild of package 1 fails in the first two rounds.
abbrev report : ℕ → Report
report round = record {
  is_fatal = false;
  delta_errors = if ltb round 2 then 1 ∷ [] else [];
  target_error = λ p. no_error;
}

abbrev payload : ℕ → Payload
payload pkg = record { pkg = pkg; is_delta = false; download_size = 100; full_size = 100 }

abbrev payloads : List Payload
payloads = record { pkg = 1; is_delta = true; download_size = 10; full_size = 100 } ∷ payload 2 ∷ []

download_remote_payloads-payloads :
    (download_remote_payloads report payload 3 3 payloads ≡ finished 2 [] 310 (310, 300))
    × (download_remote_payloads report payload 1 1 payloads ≡ finished 1 (1 ∷ []) 210 (210, 200))
unfolding program
download_remote_payloads-payloads = (refl, refl)

download_remote_payloads-EndsWithin_example :
    EndsWithin 3 (download_remote_payloads report payload 3 3 payloads)
download_remote_payloads-EndsWithin_example =
    download_remote_payloads-EndsWithin report payload 3 payloads (omega arith)

download_remote_payloads-EndsEmpty_example :
    EndsEmpty (download_remote_payloads report payload 2 0 payloads)
download_remote_payloads-EndsEmpty_example =
    download_remote_payloads-EndsEmpty report payload 2 payloads refl
