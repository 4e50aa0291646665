-- ===== src/Lock/Exclusion.antt =====
-- Processes that share one lock file (dnf/lock.py), each attempt of `__enter__` as one step.
use dnf.Base.{
  ℕ, suc, ◌+◌, ◌-◌, ◌<◌, ◌≤◌, ◌≡◌, ◌⊎◌, Bool, true, false, Option, none, some, List, ◌==◌, ℕ_eq,
  if◌then◌else◌, arith,
}
use dnf.Lock.{
  Content, pid_text, Flock, TryLock, got, Sight, try_lock, hold, ProcessLock, fresh, lock_thread,
  unlock_thread, entered, Verdict, ends, sleeps, judge, leave, Exit, left, exit,
}

-- A process: its `ProcessLock`, whether it is in the loop of `__enter__`, and how many bodies of
-- `with` it is inside of, one in another.
pub record Process : Type 0 where
  pub lock : ProcessLock
  pub is_entering : Bool
  pub inside : ℕ

-- The lock file, the processes that live, and what each of them has.
pub record World : Type 0 where
  pub file : Option Content
  pub alive : ℕ → Bool
  pub processes : ℕ → Process

abbrev pub at {ℓ} : {A : Type ℓ} → (ℕ → A) → ℕ → A → ℕ → A
at f p v q = if q == p then v else f q

abbrev pub seen : World → Flock → Sight
seen w flock = record { file = w.file; alive = w.alive; flock = flock }

-- What an attempt makes of its process: it is inside, or `__enter__` raises, or the loop goes on.
abbrev pub after_attempt : Verdict → Process → Process
after_attempt (ends entered) a = record {
  lock = leave entered a.lock;
  is_entering = false;
  inside = suc a.inside;
}
after_attempt (ends e) a = record a { lock = leave e a.lock; is_entering = false }
after_attempt (sleeps prev_pid said) a = a

abbrev pub after_exit : Exit → Option Content → Option Content
after_exit (left true) file = none
after_exit _ file = file

-- A living process begins to enter, makes an attempt, or leaves, where the system lets it unlink the
-- lock file or not; any process may die, and a pid may be given to a new process. What the process
-- announced before does not matter: `prev_pid` and `said` are any.
pub data Step (w u : World) : Type 0 where
  begins :
      (p thread : ℕ) (m : ProcessLock)
      → w.alive p ≡ true
      → (w.processes p).is_entering ≡ false
      → lock_thread thread (w.processes p).lock ≡ some m
      → u ≡ record w {
        processes = at w.processes p (record (w.processes p) { lock = m; is_entering = true });
      }
      → Step w u
  tries :
      (p : ℕ) (flock : Flock) (prev_pid : Option ℕ) (said : List ℕ)
      → w.alive p ≡ true
      → (w.processes p).is_entering ≡ true
      → u ≡ record w {
        file = some (try_lock p (seen w flock)).1;
        processes = at w.processes p (
            after_attempt
              (judge p (w.processes p).lock.blocking prev_pid said (try_lock p (seen w flock)).0)
              (w.processes p));
      }
      → Step w u
  leaves :
      (p : ℕ) (is_unlinkable : Bool)
      → w.alive p ≡ true
      → (w.processes p).is_entering ≡ false
      → 0 < (w.processes p).inside
      → u ≡ record w {
        file = after_exit (exit is_unlinkable (w.processes p).lock).0 w.file;
        processes = at w.processes p (record (w.processes p) {
          lock = (exit is_unlinkable (w.processes p).lock).1;
          inside = (w.processes p).inside - 1;
        });
      }
      → Step w u
  dies : (p : ℕ) → u ≡ record w { alive = at w.alive p false } → Step w u
  starts :
      (p : ℕ) (blocking : Bool)
      → w.alive p ≡ false
      → u ≡ record w {
        alive = at w.alive p true;
        processes =
            at w.processes p (record { lock = fresh blocking; is_entering = false; inside = 0 });
      }
      → Step w u

pub data Reach (w : World) : World → Type 0 where
  here : Reach w w
  next : {v u : World} → Reach w v → Step v u → Reach w u

-- A body of `with`, and a loop of `__enter__`, has its share of the count of the lock.
abbrev pub IsCounted : Process → Type 0
IsCounted a = a.inside + (if a.is_entering then 1 else 0) ≤ a.lock.count

-- A living process that is inside is named in the lock file.
abbrev pub IsNamed : World → Type 0
IsNamed w =
    (p : ℕ)
    → IsCounted (w.processes p)
      × (w.alive p ≡ true → 0 < (w.processes p).inside → w.file ≡ some (pid_text p))

attempt_kept :
    (p : ℕ) (w : World) (flock : Flock) (q : ℕ)
    → w.file ≡ some (pid_text q)
    → w.alive q ≡ true
    → (try_lock p (seen w flock)).1 ≡ pid_text q
unfolding try_lock hold
attempt_kept p w flock q named lives = ground arith

attempt_claims :
    (p : ℕ) (sight : Sight) → (try_lock p sight).0 ≡ got p → (try_lock p sight).1 ≡ pid_text p
unfolding try_lock hold
attempt_claims p sight h = ground arith

-- An attempt that takes the process further inside is one that found or wrote its pid.
judge-inside :
    (p : ℕ) (answer : TryLock) (prev_pid : Option ℕ) (said : List ℕ) (a : Process)
    → IsCounted a
    → a.is_entering ≡ true
    → let b = after_attempt (judge p a.lock.blocking prev_pid said answer) a in
      IsCounted b × (0 < b.inside → (answer ≡ got p) ⊎ (0 < a.inside))
unfolding judge leave unlock_thread
judge-inside p answer prev_pid said a c e = ground arith

module _ (w : World) (inv : IsNamed w) where
  begins-IsNamed :
      (p thread : ℕ) (m : ProcessLock)
      → (w.processes p).is_entering ≡ false
      → lock_thread thread (w.processes p).lock ≡ some m
      → IsNamed (record w {
        processes = at w.processes p (record (w.processes p) { lock = m; is_entering = true });
      })
  unfolding lock_thread
  begins-IsNamed p thread m out locked q =
      (ground (arith, (inv q).0, out, locked), λ lives inside. ground (arith, (inv q).1 lives))

  tries-IsNamed :
      (p : ℕ) (flock : Flock) (prev_pid : Option ℕ) (said : List ℕ)
      → (w.processes p).is_entering ≡ true
      → IsNamed (record w {
        file = some (try_lock p (seen w flock)).1;
        processes = at w.processes p (
            after_attempt
              (judge p (w.processes p).lock.blocking prev_pid said (try_lock p (seen w flock)).0)
              (w.processes p));
      })
  tries-IsNamed p flock prev_pid said entering q =
      let j =
        judge-inside p (try_lock p (seen w flock)).0 prev_pid said (w.processes p) (inv p).0
          entering in
      (
        ground (arith, (inv q).0, j.0),
        λ lives inside. ground (
          arith,
          (inv q).1 lives,
          inside,
          j.1,
          attempt_kept p w flock q,
          attempt_claims p (seen w flock),
        ),
      )

  leaves-IsNamed :
      (p : ℕ) (is_unlinkable : Bool)
      → w.alive p ≡ true
      → (w.processes p).is_entering ≡ false
      → 0 < (w.processes p).inside
      → IsNamed (record w {
        file = after_exit (exit is_unlinkable (w.processes p).lock).0 w.file;
        processes = at w.processes p (record (w.processes p) {
          lock = (exit is_unlinkable (w.processes p).lock).1;
          inside = (w.processes p).inside - 1;
        });
      })
  unfolding exit unlock_thread
  leaves-IsNamed p is_unlinkable lives_p out inside_p q = (
    ground (arith, (inv q).0, (inv p).0, out, inside_p),
    λ lives inside.
        ground
          (arith, (inv q).1 lives, (inv p).1 lives_p inside_p, (inv p).0, out, inside_p, inside),
  )

  dies-IsNamed : (p : ℕ) → IsNamed (record w { alive = at w.alive p false })
  dies-IsNamed p q = ((inv q).0, λ lives inside. ground (arith, (inv q).1))

  starts-IsNamed :
      (p : ℕ) (blocking : Bool)
      → IsNamed (record w {
        alive = at w.alive p true;
        processes =
            at w.processes p (record { lock = fresh blocking; is_entering = false; inside = 0 });
      })
  starts-IsNamed p blocking q =
      (ground (arith, (inv q).0), λ lives inside. ground (arith, (inv q).1))

Step-IsNamed : {w u : World} → Step w u → IsNamed w → IsNamed u
Step-IsNamed {w} (begins p thread m lives out locked e) inv =
    rw e (begins-IsNamed w inv p thread m out locked)
Step-IsNamed {w} (tries p flock prev_pid said lives entering e) inv =
    rw e (tries-IsNamed w inv p flock prev_pid said entering)
Step-IsNamed {w} (leaves p is_unlinkable lives out inside e) inv =
    rw e (leaves-IsNamed w inv p is_unlinkable lives out inside)
Step-IsNamed {w} (dies p e) inv = rw e (dies-IsNamed w inv p)
Step-IsNamed {w} (starts p blocking dead e) inv = rw e (starts-IsNamed w inv p blocking)

Reach-IsNamed : {w u : World} → IsNamed w → Reach w u → IsNamed u
Reach-IsNamed inv here = inv
Reach-IsNamed inv (next r s) = Step-IsNamed s (Reach-IsNamed inv r)

-- A start: whatever the lock file and the locks hold, no process is inside or entering.
abbrev pub IsIdle : World → Type 0
IsIdle w = (p : ℕ) → ((w.processes p).inside ≡ 0) × ((w.processes p).is_entering ≡ false)

idle-IsNamed : (w : World) → IsIdle w → IsNamed w
idle-IsNamed w idle p =
    (ground (arith, idle p), λ lives inside. absurd (omega (arith, (idle p).0, inside)))

-- Mutual exclusion: where an attempt is one step, at most one living process is inside, in every
-- state that is reached from one where none is inside or entering. The attempts that raise, and
-- leave the lock of their process held, are among the steps, and so are those of `__exit__` that
-- cannot unlink the lock file.
pub mutual_exclusion :
    (w u : World) (p q : ℕ)
    → IsIdle w
    → Reach w u
    → u.alive p ≡ true
    → u.alive q ≡ true
    → 0 < (u.processes p).inside
    → 0 < (u.processes q).inside
    → p ≡ q
mutual_exclusion w u p q idle r lives_p lives_q inside_p inside_q =
    let inv : IsNamed u = Reach-IsNamed (idle-IsNamed w idle) r in
    cc ((inv p).1 lives_p inside_p, (inv q).1 lives_q inside_q)
