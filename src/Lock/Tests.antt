-- ===== src/Lock/Tests.antt =====
-- Runs of dnf/lock.py, and the theorems about it at them.
use dnf.Base.{ℕ, none, ◌≡◌, refl, ◌≢◌, true, false, some, [], ◌∷◌, arith, inl, inr, ◌==◌, ℕ_eq}
use dnf.Lock.{
  malformed, pid_text, acquired, Sight, ProcessLock, fresh, enter, exit, wait, judge, try_lock,
  hold, lock_thread, unlock_thread, leave, entered, still_waiting, process_lock_error,
  malformed_lock_file, thread_lock_error, left,
}
use dnf.Lock.Paths.{Leaves, enter-Leaves, exit-enter}
use dnf.Lock.Attempts.{Reports, enter-ends, enter-Reports}
use dnf.Lock.Exclusion.{Process, World, Step, begins, tries, here, next, at, mutual_exclusion}
use dnf.Lock.Race.{run, no_file, unlinked_race, run-unlinked_race}

program : Unit {0}
unfolding enter exit wait judge try_lock hold lock_thread unlock_thread leave
program = tt

-- Process 7 holds the lock and lives; then it is dead.
abbrev held : Sight
held = record { file = some (pid_text 7); alive = λ p. p == 7; flock = acquired }

abbrev dead : Sight
dead = record { file = some (pid_text 7); alive = λ p. false; flock = acquired }

enter-waits : enter 5 1 (fresh true) (held ∷ held ∷ dead ∷ []) ≡ record {
  outcome = entered;
  lock = record { blocking = true; count = 1; owner = some 1; depth = 1 };
  announced = 7 ∷ [];
}
unfolding program
enter-waits = refl

enter-refused : (enter 5 1 (fresh false) (held ∷ [])).outcome ≡ process_lock_error 7
unfolding program
enter-refused = refl

abbrev broken : Sight
broken = record { file = some malformed; alive = λ p. false; flock = acquired }

-- LockError leaves the count at 1, and another thread is locked out.
enter-broken :
    ((enter 5 1 (fresh true) (broken ∷ [])).outcome ≡ malformed_lock_file)
    × ((enter 5 1 (fresh true) (broken ∷ [])).lock.count ≡ 1)
    × ((enter 5 2 (enter 5 1 (fresh true) (broken ∷ [])).lock (dead ∷ [])).outcome
        ≡ thread_lock_error)
unfolding program
enter-broken = (refl, refl, refl)

enter-Leaves_example :
    Leaves
      (enter 5 1 (fresh true) (broken ∷ [])).outcome
      (fresh true)
      (enter 5 1 (fresh true) (broken ∷ [])).lock
enter-Leaves_example = enter-Leaves 5 1 (fresh true) (broken ∷ []) (refl, inl (refl, refl))

abbrev locked_once : ProcessLock
locked_once = record { blocking = true; count = 1; owner = some 0; depth = 1 }

-- A lock file that cannot be unlinked leaves the lock held.
exit-refused : (exit false locked_once).1.count ≡ 1
unfolding program
exit-refused = refl

exit-enter_example :
    exit true (enter 5 1 (fresh true) (held ∷ dead ∷ [])).lock ≡ (left true, fresh true)
unfolding program
exit-enter_example =
    exit-enter 5 1 (fresh true) (held ∷ dead ∷ []) true (refl, inl (refl, refl)) refl

enter-ends_example : (enter 5 1 (fresh true) (held ∷ dead ∷ [])).outcome ≢ still_waiting
enter-ends_example = enter-ends 5 1 (fresh true) (held ∷ dead ∷ []) (inr (inl (refl, inr refl)))

enter-Reports_example : Reports 5 false (enter 5 1 (fresh false) (held ∷ [])).outcome (held ∷ [])
enter-Reports_example = enter-Reports 5 1 (fresh false) (held ∷ [])

abbrev outside : Process
outside = record { lock = fresh true; is_entering = false; inside = 0 }

abbrev stale : World
stale = record { file = some (pid_text 7); alive = λ p. p == 5; processes = λ p. outside }

abbrev begun : World
begun = record stale {
  processes = at (λ p. outside) 5 (record { lock = locked_once; is_entering = true; inside = 0 });
}

abbrev taken : World
taken = record begun {
  file = some (pid_text 5);
  processes = at begun.processes 5 (record { lock = locked_once; is_entering = false; inside = 1 });
}

stale-begun : Step stale begun
unfolding program
stale-begun = begins 5 0 locked_once refl refl refl refl

begun-taken : Step begun taken
unfolding program
begun-taken = tries 5 acquired none [] refl refl refl

mutual_exclusion_example : ◌≡◌ {A = ℕ} 5 5
mutual_exclusion_example =
    mutual_exclusion stale taken 5 5 (λ p. (refl, refl)) (next (next here stale-begun) begun-taken)
      refl refl (omega arith) (omega arith)

run-unlinked_race_example :
    let s = run no_file (unlinked_race 1 2 3) in
    (s.alive 2 ≡ true) × (s.alive 3 ≡ true) × (s.inside 2 ≡ true) × (s.inside 3 ≡ true)
run-unlinked_race_example = run-unlinked_race 1 2 3 (omega arith) (omega arith) (omega arith)
