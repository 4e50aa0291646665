-- ===== src/Download.antt =====
-- `_download_payloads` of dnf/repo.py and the retries of `Base._download_remote_payloads`.
pub mod Retries
mod Tests
use dnf.Base.{
  ℕ, zero, suc, ◌+◌, ◌-◌, Bool, true, false, not, ◌&&◌, ◌||◌, List, [], ◌∷◌, ◌++◌, filter, map, mem,
  ltb, ◌==◌, ℕ_eq, if◌then◌else◌,
}

-- Packages are numbered.
pub record Payload : Type 0 where
  pub pkg : ℕ
  pub is_delta : Bool
  pub download_size : ℕ
  pub full_size : ℕ

-- What a target reports: nothing or not finished, already downloaded, or another error.
pub data TargetError : Type 0 where
  no_error already_downloaded failed : TargetError

-- What one round of downloads reports: whether it failed as a whole, the errors of the delta
-- rebuilds, and the error of each target.
pub record Report : Type 0 where
  pub is_fatal : Bool
  pub delta_errors : List ℕ
  pub target_error : Payload → TargetError

-- `_DownloadErrors`
pub record Errors : Type 0 where
  pub pkg_irrecoverable : List ℕ
  pub recoverable : List ℕ
  pub fatal : Bool
  pub skipped : List ℕ

abbrev pub is_nil : List ℕ → Bool
is_nil [] = true
is_nil (x ∷ xs) = false

-- Is there anything in `_irrecoverable()`?
abbrev pub irrecoverable : Errors → Bool
irrecoverable errs = not (is_nil errs.pkg_irrecoverable) || errs.fatal

-- Deltas come before the other payloads.
abbrev pub sorted : List Payload → List Payload
sorted payloads = filter (λ p. p.is_delta) payloads ++ filter (λ p. not p.is_delta) payloads

-- The loop over the targets.
unfoldable pub target_errors : Report → List Payload → Errors → Errors
target_errors report [] errs = errs
target_errors report (payload ∷ targets) errs =
    target_errors report targets (elim (report.target_error payload) [
      | no_error ↦ errs
      | already_downloaded ↦ record errs { skipped = payload.pkg ∷ errs.skipped }
      | failed ↦ record errs { pkg_irrecoverable = payload.pkg ∷ errs.pkg_irrecoverable }
    ])

unfoldable pub download_payloads : Report → List Payload → Errors
unfolding target_errors
download_payloads report payloads = target_errors report (sorted payloads) (record {
  pkg_irrecoverable = [];
  recoverable = report.delta_errors;
  fatal = report.is_fatal;
  skipped = [];
})

unfoldable pub bandwidth_used : Errors → List Payload → ℕ
bandwidth_used errs [] = 0
bandwidth_used errs (pload ∷ payloads) =
    (if mem pload.pkg errs.skipped then 0 else pload.download_size) + bandwidth_used errs payloads

unfoldable pub update_saving : ℕ × ℕ → List Payload → (errs : List ℕ) → ℕ × ℕ
update_saving saving [] errs = saving
update_saving (real, full) (pload ∷ payloads) errs =
    update_saving
      (real + pload.download_size, if mem pload.pkg errs then full else full + pload.full_size)
      payloads errs

-- DownloadError; or the rounds that were retried, what is still not there, the bytes and the
-- saving; `unfinished`: the fuel is not enough.
pub data Outcome : Type 0 where
  unfinished download_error : Outcome
  finished : (rounds : ℕ) (left : List ℕ) (remote_size : ℕ) (saving : ℕ × ℕ) → Outcome

-- `report`: what each round reports, by its number; `payload`: a package's payload without a delta.
module _ (report : ℕ → Report) (payload : ℕ → Payload) where
  -- The loop of retries, on fuel. `round`: how many rounds were retried before.
  unfoldable pub retry_loop :
      (fuel : ℕ)
      → (forever : Bool) → (retries round : ℕ) → Errors
      → (remote_size : ℕ) → (saving : ℕ × ℕ) → Outcome
  unfolding download_payloads bandwidth_used update_saving
  retry_loop zero forever retries round errors remote_size saving =
      if not (is_nil errors.recoverable) && (forever || ltb 0 retries)
      then unfinished
      else finished round errors.recoverable remote_size saving
  retry_loop (suc fuel) forever retries round errors remote_size saving =
      let payloads = map payload errors.recoverable in
      let errs = download_payloads (report (suc round)) payloads in
      let rest =
        retry_loop fuel forever (retries - 1) (suc round) errs
          (remote_size + bandwidth_used errs payloads) (update_saving saving payloads []) in
      if not (is_nil errors.recoverable) && (forever || ltb 0 retries)
      then if irrecoverable errs then download_error else rest
      else finished round errors.recoverable remote_size saving

  unfoldable pub download_remote_payloads : (fuel conf_retries : ℕ) → List Payload → Outcome
  unfolding retry_loop
  download_remote_payloads fuel conf_retries payloads =
      let errors = download_payloads (report 0) payloads in
      if irrecoverable errors
      then download_error
      else retry_loop fuel (conf_retries == 0) conf_retries 0 errors
          (bandwidth_used errors payloads) (update_saving (0, 0) payloads errors.recoverable)
