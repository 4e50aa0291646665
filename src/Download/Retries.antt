-- ===== src/Download/Retries.antt =====
-- How the retries of `_download_remote_payloads` end.
use dnf.Base.{
  ℕ, zero, suc, ◌+◌, ◌-◌, ◌≤◌, true, false, List, [], ◌∷◌, map, ltb, ◌==◌, ℕ_eq, ◌≡◌, ◌⊎◌, refl,
  arith, ap, ◌∙◌, Bool-cases, inl, inr,
}
use dnf.Download.{
  Payload, Report, Errors, is_nil, sorted, irrecoverable, download_payloads, bandwidth_used,
  update_saving, Outcome, unfinished, download_error, finished, retry_loop,
  download_remote_payloads, target_errors,
}

-- An end with an error, or with at most a number of rounds, all of which were used if anything is left.
abbrev pub EndsWithin : ℕ → Outcome → Type 0
EndsWithin rounds unfinished = ⊥
EndsWithin rounds download_error = Unit
EndsWithin rounds (finished used left remote_size saving) =
    (used ≤ rounds) × ((used ≡ rounds) ⊎ (left ≡ []))

-- An end with an error, or with nothing left.
abbrev pub EndsEmpty : Outcome → Type 0
EndsEmpty unfinished = ⊥
EndsEmpty download_error = Unit
EndsEmpty (finished used left remote_size saving) = left ≡ []

is_nil-eq : (l : List ℕ) → is_nil l ≡ true → l ≡ []
is_nil-eq [] h = refl
is_nil-eq (x ∷ l) h = ground (arith, h)

set_retries : (conf_retries : ℕ) → 1 ≤ conf_retries → (conf_retries == 0) ≡ false
set_retries conf_retries h = ground (arith, h)

none_retried : (retries : ℕ) → retries ≡ 0 → ltb 0 retries ≡ false
none_retried retries e = ground (arith, e)

some_retried : (retries n : ℕ) → retries ≡ suc n → ltb 0 retries ≡ true
some_retried retries n e = ground (arith, e)

module _ (report : ℕ → Report) (payload : ℕ → Payload) where
  retry_loop-EndsWithin :
      (fuel retries round rounds : ℕ) (errors : Errors) (remote_size : ℕ) (saving : ℕ × ℕ)
      → retries ≡ fuel
      → round + fuel ≡ rounds
      → EndsWithin rounds
          (retry_loop report payload fuel false retries round errors remote_size saving)
  unfolding retry_loop
  retry_loop-EndsWithin zero retries round rounds errors remote_size saving e t =
      elim (Bool-cases (is_nil errors.recoverable)) [
        | inl n ↦ rw (n, retry_loop) (omega (arith, t), inr (is_nil-eq errors.recoverable n))
        | inr n ↦
            rw (n, none_retried retries e, retry_loop) (omega (arith, t), inl (omega (arith, t)))
      ]
  retry_loop-EndsWithin (suc fuel) retries round rounds errors remote_size saving e t =
      elim (Bool-cases (is_nil errors.recoverable)) [
        | inl n ↦ rw (n, retry_loop) (omega (arith, t), inr (is_nil-eq errors.recoverable n))
        | inr n ↦
            let payloads = map payload errors.recoverable in
            let errs = download_payloads (report (suc round)) payloads in
            elim (Bool-cases (irrecoverable errs)) [
              | inl f ↦ rw (n, some_retried retries fuel e, f, retry_loop) tt
              | inr f ↦
                  rw (n, some_retried retries fuel e, f, retry_loop)
                    (retry_loop-EndsWithin fuel (retries - 1) (suc round) rounds errs
                      (remote_size + bandwidth_used errs payloads)
                      (update_saving saving payloads []) (omega (arith, e)) (omega (arith, t)))
            ]
      ]

  -- Where a number of retries is set, as many rounds as that are enough. The downloads end with an
  -- error, or with at most that many retries, all of which were used if a package is still not there.
  pub download_remote_payloads-EndsWithin :
      (conf_retries : ℕ) (payloads : List Payload)
      → 1 ≤ conf_retries
      → EndsWithin conf_retries
          (download_remote_payloads report payload conf_retries conf_retries payloads)
  unfolding download_remote_payloads
  download_remote_payloads-EndsWithin conf_retries payloads h =
      let errors = download_payloads (report 0) payloads in
      elim (Bool-cases (irrecoverable errors)) [
        | inl f ↦ rw (f, download_remote_payloads) tt
        | inr f ↦
            rw (f, set_retries conf_retries h, download_remote_payloads)
              (retry_loop-EndsWithin conf_retries conf_retries 0 conf_retries errors
                (bandwidth_used errors payloads) (update_saving (0, 0) payloads errors.recoverable)
                refl (omega arith))
      ]

  target_errors-recoverable :
      (r : Report) (payloads : List Payload) (errs : Errors)
      → (target_errors r payloads errs).recoverable ≡ errs.recoverable
  unfolding target_errors
  target_errors-recoverable r [] errs = refl
  target_errors-recoverable r (p ∷ payloads) errs =
      target_errors-recoverable r payloads _ ∙ ground arith

  download_payloads-recoverable :
      (r : Report) (payloads : List Payload)
      → (download_payloads r payloads).recoverable ≡ r.delta_errors
  unfolding download_payloads
  download_payloads-recoverable r payloads = target_errors-recoverable r (sorted payloads) (record {
    pkg_irrecoverable = [];
    recoverable = r.delta_errors;
    fatal = r.is_fatal;
    skipped = [];
  })

  retry_loop-EndsEmpty :
      (fuel retries round last : ℕ) (errors : Errors) (remote_size : ℕ) (saving : ℕ × ℕ)
      → (report last).delta_errors ≡ []
      → round + fuel ≡ last
      → ((round ≡ last) → errors.recoverable ≡ [])
      → EndsEmpty (retry_loop report payload fuel true retries round errors remote_size saving)
  unfolding retry_loop
  retry_loop-EndsEmpty zero retries round last errors remote_size saving d t h =
      rw (h (omega (arith, t)), retry_loop) refl
  retry_loop-EndsEmpty (suc fuel) retries round last errors remote_size saving d t h =
      elim (Bool-cases (is_nil errors.recoverable)) [
        | inl n ↦ rw (n, retry_loop) (is_nil-eq errors.recoverable n)
        | inr n ↦
            let payloads = map payload errors.recoverable in
            let errs = download_payloads (report (suc round)) payloads in
            elim (Bool-cases (irrecoverable errs)) [
              | inl f ↦ rw (n, f, retry_loop) tt
              | inr f ↦
                  rw (n, f, retry_loop)
                    (retry_loop-EndsEmpty fuel (retries - 1) (suc round) last errs
                      (remote_size + bandwidth_used errs payloads)
                      (update_saving saving payloads []) d (omega (arith, t))
                      (λ e.
                        download_payloads-recoverable (report (suc round)) payloads
                        ∙ ap (λ k. (report k).delta_errors) e
                        ∙ d))
            ]
      ]

  -- Where no number of retries is set, and some round reports no failed rebuild of a delta, that
  -- many rounds are enough: the downloads end with an error or with nothing left.
  pub download_remote_payloads-EndsEmpty :
      (last : ℕ) (payloads : List Payload)
      → (report last).delta_errors ≡ []
      → EndsEmpty (download_remote_payloads report payload last 0 payloads)
  unfolding download_remote_payloads
  download_remote_payloads-EndsEmpty last payloads d =
      let errors = download_payloads (report 0) payloads in
      elim (Bool-cases (irrecoverable errors)) [
        | inl f ↦ rw (f, download_remote_payloads) tt
        | inr f ↦
            rw (f, download_remote_payloads)
              (retry_loop-EndsEmpty last 0 0 last errors (bandwidth_used errors payloads)
                (update_saving (0, 0) payloads errors.recoverable) d (omega arith)
                (λ e.
                  download_payloads-recoverable (report 0) payloads
                  ∙ ap (λ k. (report k).delta_errors) e
                  ∙ d))
      ]
