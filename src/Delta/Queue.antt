-- ===== src/Delta/Queue.antt =====
-- The queue of rebuild jobs of `DeltaInfo`: how many run, and that none is lost.
use dnf.Base.{
  ℕ, suc, zero, ◌+◌, ◌≤◌, Bool, true, false, Option, none, some, List, [], ◌∷◌, ◌++◌, length,
  length-append, ltb, ℕ_eq, ◌≡◌, refl, arith, subst, Bool-cases, Option-cases, List-cases, sym, inl,
  inr, ap, ◌∙◌,
}
use dnf.Base.Dict.{Dict, insert}
use dnf.Delta.{State, pop, job_done, reap, start_jobs, enqueue, wait, outcome, is_nil, start_next}
use dnf.Delta.Jobs.{has_pid, pop-length, pop-some, length-insert}

abbrev pub is_cons : List ℕ → Bool
is_cons [] = false
is_cons (p ∷ ps) = true

-- The payloads in the queue, in jobs and finished.
abbrev pub total : State → ℕ
total s = length s.queue + length s.jobs + length s.finished

-- No more jobs than may run, and no payload in the queue while one more could run.
abbrev pub IsBounded : ℕ → State → Type 0
IsBounded deltarpm_jobs s =
    (length s.jobs ≤ deltarpm_jobs) × ((is_cons s.queue ≡ true) → length s.jobs ≡ deltarpm_jobs)

-- Processes that end one after another are running jobs.
unfoldable pub AreRunning : List (ℕ × ℕ) → Dict ℕ ℕ → Type 0
AreRunning [] jobs = Unit
AreRunning ((pid, code) ∷ ended) jobs =
    (has_pid pid jobs ≡ true)
    × ((v : ℕ) (left : Dict ℕ ℕ) → pop pid jobs ≡ some (v, left) → AreRunning ended left)

state_injective : {s t : State} → some s ≡ some t → s ≡ t
state_injective e = ap (λ o. from_some o) e
  where
    from_some : Option State → State
    from_some none = record { queue = []; jobs = []; finished = [] }
    from_some (some s) = s

module _ (verifies : ℕ → Bool) (spawn : Dict ℕ ℕ → ℕ) (deltarpm_jobs : ℕ)
    (spawn_fresh : (jobs : Dict ℕ ℕ) → has_pid (spawn jobs) jobs ≡ false) where
  abbrev Moved : State → State → Type 0
  Moved s t =
      (t.queue ≡ s.queue)
      × (length s.jobs ≡ suc (length t.jobs))
      × (length t.finished ≡ suc (length s.finished))

  job_done-Moved :
      (pid code : ℕ) (s t : State)
      → job_done verifies spawn deltarpm_jobs pid code s ≡ some t
      → Moved s t
  unfolding job_done
  job_done-Moved pid code s t e = elim (Option-cases (pop pid s.jobs)) [
    | inl n ↦ ground (arith, n, e)
    | inr ((v, left), f) ↦
        subst (λ x. Moved s x) (state_injective (rw (f, job_done) at e))
          (
            refl,
            pop-length pid v s.jobs left f,
            omega (
              arith,
              length-append s.finished ((v, outcome verifies spawn deltarpm_jobs v code) ∷ []),
            ),
          )
  ]

  abbrev Reaped : State → State → Type 0
  Reaped s t =
      (t.queue ≡ s.queue)
      × (length t.jobs ≤ length s.jobs)
      × (length t.jobs + length t.finished ≡ length s.jobs + length s.finished)

  job_done-some :
      (pid code : ℕ) (s : State)
      → has_pid pid s.jobs ≡ true
      → (v : ℕ) × (t : State) × (job_done verifies spawn deltarpm_jobs pid code s ≡ some t)
        × (pop pid s.jobs ≡ some (v, t.jobs))
  unfolding job_done
  job_done-some pid code s h =
      let (v, left, f) = pop-some pid s.jobs h in
      (
        v,
        record {
          queue = s.queue;
          jobs = left;
          finished = s.finished ++ (v, outcome verifies spawn deltarpm_jobs v code) ∷ [];
        },
        rw (f, job_done) refl,
        f,
      )

  reap-Reaped :
      (ended : List (ℕ × ℕ)) (s : State)
      → AreRunning ended s.jobs
      → (t : State) × (reap verifies spawn deltarpm_jobs ended s ≡ some t) × Reaped s t
  unfolding reap AreRunning
  reap-Reaped [] s r = (s, refl, (refl, omega arith, refl))
  reap-Reaped ((pid, code) ∷ ended) s r =
      elim (Bool-cases (is_nil verifies spawn deltarpm_jobs s.jobs)) [
        | inl n ↦ (s, rw (n, reap) refl, (refl, omega arith, refl))
        | inr n ↦
            let (v, m, f, p) = job_done-some pid code s r.0 in
            let (q, l, g) = job_done-Moved pid code s m f in
            let (t, k, (a, b, c)) = reap-Reaped ended m (r.1 v m.jobs p) in
            (t, rw (n, f, reap) k, (a ∙ q, omega (arith, b, l), omega (arith, c, l, g)))
      ]

  start_jobs_bounded :
      (queue : List ℕ) (jobs : Dict ℕ ℕ)
      → length jobs ≤ deltarpm_jobs
      → let (q, j) = start_jobs verifies spawn deltarpm_jobs queue jobs in
        (length j ≤ deltarpm_jobs)
        × ((is_cons q ≡ true) → length j ≡ deltarpm_jobs)
        × (length q + length j ≡ length queue + length jobs)
  unfolding start_jobs
  start_jobs_bounded [] jobs h = (h, λ e. ground (arith, e), refl)
  start_jobs_bounded (p ∷ queue) jobs h = elim (Bool-cases (ltb (length jobs) deltarpm_jobs)) [
    | inl t ↦
        let grown = length-insert (spawn jobs) p jobs (spawn_fresh jobs) in
        let ih = start_jobs_bounded queue (insert (spawn jobs) p jobs) (ground (arith, t, grown)) in
        rw (t, start_jobs) (ih.0, ih.1, omega (arith, ih.2, grown))
    | inr t ↦ rw (t, start_jobs) (h, λ e. ground (arith, t, h), refl)
  ]

  -- Where no more jobs run than may and the processes that have ended are running jobs, a payload is
  -- added without KeyError; after it, no more jobs run than may, and no payload waits while one more job could
  -- run; and none is lost: one more is in the queue, in a job or finished.
  pub enqueue-IsBounded :
      (ended : List (ℕ × ℕ)) (pload : ℕ) (s : State)
      → length s.jobs ≤ deltarpm_jobs
      → AreRunning ended s.jobs
      → (t : State) × (enqueue verifies spawn deltarpm_jobs ended pload s ≡ some t)
        × IsBounded deltarpm_jobs t
        × (total t ≡ suc (total s))
  unfolding enqueue
  enqueue-IsBounded ended pload s h r =
      let (m, f, (q, l, c)) = reap-Reaped ended s r in
      let b = start_jobs_bounded (m.queue ++ pload ∷ []) m.jobs (omega (arith, l, h)) in
      let (queue, jobs) = start_jobs verifies spawn deltarpm_jobs (m.queue ++ pload ∷ []) m.jobs in
      (
        record { queue = queue; jobs = jobs; finished = m.finished },
        rw (f, enqueue) refl,
        (b.0, b.1),
        omega (arith, b.2, c, length-append m.queue (pload ∷ []), ap (λ x. length x) q),
      )

  start_next-IsBounded :
      (s t : State)
      → IsBounded deltarpm_jobs s
      → Moved s t
      → let u = start_next verifies spawn deltarpm_jobs t in
        IsBounded deltarpm_jobs u
        × (suc (length u.queue + length u.jobs) ≡ length s.queue + length s.jobs)
        × (length u.finished ≡ suc (length s.finished))
  start_next-IsBounded s t h m = elim (List-cases t.queue) [
    | inl e ↦
        let e2 = sym m.0 ∙ e in
        rw e ((omega (arith, h.0, m.1), λ k. ground (arith, k, e)), rw e2 (omega (arith, m.1)), m.2)
    | inr (p, q, e) ↦
        let e2 = sym m.0 ∙ e in
        let grown = length-insert (spawn t.jobs) p t.jobs (spawn_fresh t.jobs) in
        let full = h.1 (rw e2 refl) in
        rw e (
          (omega (arith, grown, h.0, m.1), λ k. omega (arith, grown, full, m.1)),
          rw e2 (omega (arith, grown, m.1)),
          m.2,
        )
  ]

  no_jobs : (jobs : Dict ℕ ℕ) → length jobs ≤ 0 → is_nil verifies spawn deltarpm_jobs jobs ≡ true
  no_jobs [] h = refl
  no_jobs (j ∷ jobs) h = ground (arith, h)

  -- Without jobs, no payload waits.
  drained :
      (s : State)
      → 1 ≤ deltarpm_jobs
      → IsBounded deltarpm_jobs s
      → is_nil verifies spawn deltarpm_jobs s.jobs ≡ true
      → (s.queue ≡ []) × (s.jobs ≡ []) × (length s.finished ≡ total s)
  drained s o h n = elim (List-cases s.jobs) [
    | inr (j, js, e) ↦ ground (arith, n, e)
    | inl e ↦ elim (List-cases s.queue) [
      | inl k ↦ (k, e, rw (k, e) (omega arith))
      | inr (p, q, k) ↦ ground (arith, h.1 (rw k refl), o, e)
    ]
  ]

  module _ (os_wait : Dict ℕ ℕ → ℕ × ℕ)
      (os_wait_running : (jobs : Dict ℕ ℕ)
        → is_nil verifies spawn deltarpm_jobs jobs ≡ false
        → has_pid (os_wait jobs).0 jobs ≡ true) where
    -- Where jobs may run, no more of them run than may and no payload waits while one more could run, as
    -- many rounds as there are payloads in the queue and in jobs are enough: then `wait` ends, without
    -- KeyError, and all payloads are finished.
    pub wait-finished :
        (fuel : ℕ) (s : State)
        → 1 ≤ deltarpm_jobs
        → IsBounded deltarpm_jobs s
        → length s.queue + length s.jobs ≤ fuel
        → (t : State) × (wait verifies spawn deltarpm_jobs os_wait fuel s ≡ some t)
          × (t.queue ≡ [])
          × (t.jobs ≡ [])
          × (length t.finished ≡ total s)
    unfolding wait
    wait-finished zero s o h l =
        let n = no_jobs s.jobs (omega (arith, l)) in
        (s, rw (n, wait) refl, (drained s o h n).0, (drained s o h n).1, (drained s o h n).2)
    wait-finished (suc fuel) s o h l =
        elim (Bool-cases (is_nil verifies spawn deltarpm_jobs s.jobs)) [
          | inl n ↦
              (s, rw (n, wait) refl, (drained s o h n).0, (drained s o h n).1, (drained s o h n).2)
          | inr n ↦
              let (v, t, f, p) =
                job_done-some (os_wait s.jobs).0 (os_wait s.jobs).1 s (os_wait_running s.jobs n) in
              let b =
                start_next-IsBounded s t h
                  (job_done-Moved (os_wait s.jobs).0 (os_wait s.jobs).1 s t f) in
              let (u, k, q, j, c) =
                wait-finished fuel (start_next verifies spawn deltarpm_jobs t) o b.0
                  (omega (arith, b.1, l)) in
              (u, rw (n, f, wait) k, q, j, omega (arith, c, b.1, b.2))
        ]
