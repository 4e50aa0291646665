-- ===== src/Lock/Attempts.antt =====
-- The loop of `__enter__` in dnf/lock.py: when it ends, and what its ending says of the lock file.
use dnf.Base.{
  ℕ, ◌≡◌, refl, subst, ◌∙◌, ap, ◌≢◌, ◌⊎◌, inl, inr, Bool, true, false, Option, none, some, List, [],
  ◌∷◌, ℕ_eq, arith, Option-cases,
}
use dnf.Lock.{
  Content, empty, malformed, pid_text, acquired, refused, TryLock, got, lock_error, hold, opened,
  Sight, try_lock, ProcessLock, lock_thread, Entry, entered, malformed_lock_file, os_failure,
  still_waiting, process_lock_error, ends, sleeps, judge, wait, enter,
}
use dnf.Lock.Paths.{Verdict-cases}

-- Some attempt meets what `P` says.
abbrev pub Meets : (Sight → Type 0) → List Sight → Type 0
Meets P [] = ⊥
Meets P (sight ∷ sights) = P sight ⊎ Meets P sights

abbrev Unclaimed : ℕ → (ℕ → Bool) → Content → Type 0
Unclaimed my_pid alive (pid_text pid) = (pid ≡ my_pid) ⊎ (alive pid ≡ false)
Unclaimed my_pid alive _ = Unit

-- The attempt obtains the flock, and no other living process is named in the lock file.
abbrev pub IsFree : ℕ → Sight → Type 0
IsFree my_pid sight = (sight.flock ≡ acquired) × Unclaimed my_pid sight.alive (opened sight.file)

hold-free :
    (my_pid : ℕ) (alive : ℕ → Bool) (content : Content)
    → Unclaimed my_pid alive content
    → ((hold my_pid alive content).0 ≡ got my_pid) ⊎ ((hold my_pid alive content).0 ≡ lock_error)
unfolding hold
hold-free my_pid alive empty u = inl refl
hold-free my_pid alive malformed u = inr refl
hold-free my_pid alive (pid_text pid) u = ground arith

judge-free :
    (my_pid : ℕ) (blocking : Bool) (prev prev' : Option ℕ) (said said' : List ℕ) (sight : Sight)
    → IsFree my_pid sight
    → judge my_pid blocking prev said (try_lock my_pid sight).0 ≢ sleeps prev' said'
unfolding judge try_lock
judge-free my_pid blocking prev prev' said said' sight (flock, u) h =
    ground (arith, hold-free my_pid sight.alive (opened sight.file) u)

judge-ne_waiting :
    (my_pid : ℕ) (blocking : Bool) (prev : Option ℕ) (said : List ℕ) (answer : TryLock)
    → judge my_pid blocking prev said answer ≢ ends still_waiting
unfolding judge
judge-ne_waiting my_pid blocking prev said (got pid) h = ground arith
judge-ne_waiting my_pid blocking prev said _ h = cc

wait-ends :
    (my_pid : ℕ) (m : ProcessLock) (prev : Option ℕ) (said : List ℕ) (sights : List Sight)
    → Meets (IsFree my_pid) sights
    → (wait my_pid m prev said sights).outcome ≢ still_waiting
unfolding wait
wait-ends my_pid m prev said [] free h = absurd free
wait-ends my_pid m prev said (sight ∷ sights) free h =
    elim (Verdict-cases (judge my_pid m.blocking prev said (try_lock my_pid sight).0)) [
      | inl (e, p) ↦
          judge-ne_waiting my_pid m.blocking prev said _ (p ∙ ap ends (rw (p, wait) at h))
      | inr (prev', said', p) ↦ elim free [
        | inl now ↦ judge-free my_pid m.blocking prev prev' said said' sight now p
        | inr later ↦ wait-ends my_pid m prev' said' sights later (rw (p, wait) at h)
      ]
    ]

-- Whatever the other attempts meet: if one of them obtains the flock on a lock file in which no
-- other living process is named, `__enter__` ends, blocking or not.
pub enter-ends :
    (my_pid thread : ℕ) (l : ProcessLock) (sights : List Sight)
    → Meets (IsFree my_pid) sights
    → (enter my_pid thread l sights).outcome ≢ still_waiting
unfolding enter
enter-ends my_pid thread l sights free = elim (Option-cases (lock_thread thread l)) [
  | inl e ↦ rw (e, enter) (λ p. cc)
  | inr (m, e) ↦ rw (e, enter) (wait-ends my_pid m none [] sights free)
]

-- An attempt writes or finds the pid of this process in the lock file.
abbrev pub Claims : ℕ → Sight → Type 0
Claims my_pid sight = try_lock my_pid sight ≡ (got my_pid, pid_text my_pid)

-- An attempt finds the lock file with the pid of another process that lives.
abbrev pub Denies : ℕ → ℕ → Sight → Type 0
Denies my_pid pid sight =
    (sight.file ≡ some (pid_text pid)) × (sight.alive pid ≡ true) × (pid ≢ my_pid)

-- What an ending of `__enter__` says of the attempts.
abbrev pub Reports : ℕ → Bool → Entry → List Sight → Type 0
Reports my_pid blocking entered sights = Meets (Claims my_pid) sights
Reports my_pid blocking (process_lock_error pid) sights =
    (blocking ≡ false) × Meets (Denies my_pid pid) sights
Reports my_pid blocking malformed_lock_file sights = Meets (λ s. s.file ≡ some malformed) sights
Reports my_pid blocking os_failure sights = Meets (λ s. s.flock ≡ refused) sights
Reports my_pid blocking _ sights = Unit

Reports-later :
    (my_pid : ℕ) (blocking : Bool) (e : Entry) (sight : Sight) (sights : List Sight)
    → Reports my_pid blocking e sights
    → Reports my_pid blocking e (sight ∷ sights)
Reports-later my_pid blocking entered sight sights r = inr r
Reports-later my_pid blocking (process_lock_error pid) sight sights r = (r.0, inr r.1)
Reports-later my_pid blocking malformed_lock_file sight sights r = inr r
Reports-later my_pid blocking os_failure sight sights r = inr r
Reports-later my_pid blocking _ sight sights r = tt

judge-Reports :
    (my_pid : ℕ) (blocking : Bool) (prev : Option ℕ) (said : List ℕ) (sight : Sight)
    (sights : List Sight) (e : Entry)
    → judge my_pid blocking prev said (try_lock my_pid sight).0 ≡ ends e
    → Reports my_pid blocking e (sight ∷ sights)
unfolding judge try_lock hold
judge-Reports my_pid blocking prev said sight sights entered h = inl (ground arith)
judge-Reports my_pid blocking prev said sight sights (process_lock_error pid) h =
    (ground arith, inl (ground arith, ground arith, λ e. ground arith))
judge-Reports my_pid blocking prev said sight sights malformed_lock_file h = inl (ground arith)
judge-Reports my_pid blocking prev said sight sights os_failure h = inl (ground arith)
judge-Reports my_pid blocking prev said sight sights _ h = tt

wait-Reports :
    (my_pid : ℕ) (m : ProcessLock) (prev : Option ℕ) (said : List ℕ) (sights : List Sight)
    → Reports my_pid m.blocking (wait my_pid m prev said sights).outcome sights
unfolding wait
wait-Reports my_pid m prev said [] = tt
wait-Reports my_pid m prev said (sight ∷ sights) =
    elim (Verdict-cases (judge my_pid m.blocking prev said (try_lock my_pid sight).0)) [
      | inl (e, p) ↦ rw (p, wait) (judge-Reports my_pid m.blocking prev said sight sights e p)
      | inr (prev', said', p) ↦
          rw (p, wait)
            (Reports-later my_pid m.blocking _ sight sights
              (wait-Reports my_pid m prev' said' sights))
    ]

blocking-lock :
    (thread : ℕ) (l m : ProcessLock) → lock_thread thread l ≡ some m → m.blocking ≡ l.blocking
unfolding lock_thread
blocking-lock thread l m e = ground arith

-- What every ending of `__enter__` says: on entering, some attempt wrote or found this process's
-- pid; ProcessLockError comes only without `blocking`, and names another living process that the
-- lock file named; LockError comes from a malformed lock file, and OSError from `flock`.
pub enter-Reports :
    (my_pid thread : ℕ) (l : ProcessLock) (sights : List Sight)
    → Reports my_pid l.blocking (enter my_pid thread l sights).outcome sights
unfolding enter
enter-Reports my_pid thread l sights = elim (Option-cases (lock_thread thread l)) [
  | inl e ↦ rw (e, enter) tt
  | inr (m, e) ↦
      rw (e, enter)
        (subst (λ b. Reports my_pid b (wait my_pid m none [] sights).outcome sights)
          (blocking-lock thread l m e) (wait-Reports my_pid m none [] sights))
]
