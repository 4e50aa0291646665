-- ===== src/Lock/Paths.antt =====
-- `__enter__` and `__exit__` of dnf/lock.py, on every path.
use dnf.Base.{
  ℕ, ◌+◌, ◌<◌, ◌≡◌, refl, ◌≢◌, ◌⊎◌, inl, inr, Bool, not, ◌&&◌, if◌then◌else◌, Option, none, some,
  List, [], ◌∷◌, ◌==◌, ℕ_eq, arith, Option-cases, ap, ◌∙◌, subst,
}
use dnf.Lock.{
  TryLock, got, Sight, try_lock, ProcessLock, lock_thread, unlock_thread, Entry, entered,
  thread_lock_error, process_lock_error, Verdict, ends, sleeps, judge, leave, wait, enter, left,
  unlink_failed, exit,
}

-- The count is how often a thread holds the RLock, and the RLock has an owner while it is held.
abbrev pub IsConsistent : ProcessLock → Type 0
IsConsistent l =
    (l.count ≡ l.depth) × ((l.owner ≡ none) × (l.depth ≡ 0) ⊎ (l.owner ≢ none) × (0 < l.depth))

unlock-lock :
    (thread : ℕ) (l m : ProcessLock)
    → IsConsistent l
    → lock_thread thread l ≡ some m
    → (unlock_thread m ≡ l) × (m.count ≡ l.count + 1) × IsConsistent m
unfolding lock_thread unlock_thread
unlock-lock thread l m c h = ground arith

pub Verdict-cases :
    (v : Verdict)
    → ((e : Entry) × (v ≡ ends e)) ⊎ ((prev : Option ℕ) × (said : List ℕ) × (v ≡ sleeps prev said))
Verdict-cases (ends e) = inl (e, refl)
Verdict-cases (sleeps prev said) = inr (prev, said, refl)

judge-ne_thread_lock_error :
    (my_pid : ℕ) (blocking : Bool) (prev_pid : Option ℕ) (said : List ℕ) (answer : TryLock)
    → judge my_pid blocking prev_pid said answer ≢ ends thread_lock_error
unfolding judge
judge-ne_thread_lock_error my_pid blocking prev_pid said (got pid) h = ground arith
judge-ne_thread_lock_error my_pid blocking prev_pid said _ h = cc

-- What `__enter__` leaves of a lock: it is as before where ThreadLockError or ProcessLockError is
-- raised; else the thread holds it once more, and giving it back restores it.
abbrev pub Leaves : Entry → ProcessLock → ProcessLock → Type 0
Leaves thread_lock_error before after = after ≡ before
Leaves (process_lock_error pid) before after = after ≡ before
Leaves _ before after = (after.count ≡ before.count + 1) × (unlock_thread after ≡ before)

leave-Leaves :
    (e : Entry) (before m : ProcessLock)
    → e ≢ thread_lock_error
    → unlock_thread m ≡ before
    → m.count ≡ before.count + 1
    → Leaves e before (leave e m)
unfolding leave
leave-Leaves thread_lock_error before m ne back more = absurd (ne refl)
leave-Leaves (process_lock_error pid) before m ne back more = back
leave-Leaves _ before m ne back more = (more, back)

wait-Leaves :
    (my_pid : ℕ) (before m : ProcessLock) (prev_pid : Option ℕ) (said : List ℕ)
    (sights : List Sight)
    → unlock_thread m ≡ before
    → m.count ≡ before.count + 1
    → Leaves
        (wait my_pid m prev_pid said sights).outcome
        before
        (wait my_pid m prev_pid said sights).lock
unfolding wait
wait-Leaves my_pid before m prev_pid said [] back more = (more, back)
wait-Leaves my_pid before m prev_pid said (sight ∷ sights) back more =
    elim (Verdict-cases (judge my_pid m.blocking prev_pid said (try_lock my_pid sight).0)) [
      | inl (e, p) ↦
          rw (p, wait)
            (leave-Leaves e before m
              (λ q. judge-ne_thread_lock_error my_pid m.blocking prev_pid said _ (p ∙ ap ends q))
              back more)
      | inr (prev, said', p) ↦
          rw (p, wait) (wait-Leaves my_pid before m prev said' sights back more)
    ]

-- What every path of `__enter__` leaves of a consistent lock. Where LockError is raised for a
-- malformed lock file, or OSError, the thread still holds the lock.
pub enter-Leaves :
    (my_pid thread : ℕ) (l : ProcessLock) (sights : List Sight)
    → IsConsistent l
    → Leaves (enter my_pid thread l sights).outcome l (enter my_pid thread l sights).lock
unfolding enter
enter-Leaves my_pid thread l sights c = elim (Option-cases (lock_thread thread l)) [
  | inl refused_thread ↦ rw (refused_thread, enter) refl
  | inr (m, locked) ↦
      let (back, more, _) = unlock-lock thread l m c locked in
      rw (locked, enter) (wait-Leaves my_pid l m none [] sights back more)
]

-- A lock that `__enter__` entered is given back by `__exit__` as it was, and `__exit__` unlinks the
-- lock file exactly when the thread had not held the lock before; but where it has to and the system
-- refuses, it raises and the lock is as `__enter__` left it.
pub exit-enter :
    (my_pid thread : ℕ) (l : ProcessLock) (sights : List Sight) (is_unlinkable : Bool)
    → IsConsistent l
    → (enter my_pid thread l sights).outcome ≡ entered
    → exit is_unlinkable (enter my_pid thread l sights).lock ≡ (
        if (l.count == 0) && not is_unlinkable
        then (unlink_failed, (enter my_pid thread l sights).lock)
        else (left (l.count == 0), l))
unfolding exit
exit-enter my_pid thread l sights is_unlinkable c e =
    let (more, back) =
      subst (λ o. Leaves o l (enter my_pid thread l sights).lock) e
        (enter-Leaves my_pid thread l sights c) in
    ground arith
