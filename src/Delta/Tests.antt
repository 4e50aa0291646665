-- ===== src/Delta/Tests.antt =====
-- Two deltas, and a queue of three payloads where two jobs may run.
use dnf.Base.{
  ℕ, suc, ◌+◌, ◌≤◌, Bool, true, false, Option, none, some, List, [], ◌∷◌, length, ◌≡◌, refl, arith,
  ◌*◌, ℕ_eq,
}
use dnf.Base.Dict.{Dict, insert}
use dnf.Delta.{
  Po, find_best, delta_factory, State, rebuilt, rebuild_failed, pop, job_done, reap, start_jobs,
  enqueue, wait, is_nil,
}
use dnf.Delta.Choice.{IsChoice, is_disabled, delta_factory-IsChoice}
use dnf.Delta.Jobs.{has_pid}
use dnf.Delta.Queue.{IsBounded, AreRunning, total, enqueue-IsBounded, wait-finished}

program : Unit {0}
unfolding find_best delta_factory pop job_done reap start_jobs enqueue wait insert AreRunning
program = tt

abbrev po : Po
po = record { repo_deltarpm = true; is_local = false; exists_locally = false; size = 1000 }

abbrev deltas : List (Option ℕ)
deltas = some 900 ∷ none ∷ some 300 ∷ some 500 ∷ []

delta_factory-deltas : delta_factory true 75 po deltas ≡ some 300
unfolding program
delta_factory-deltas = refl

delta_factory-IsChoice_example :
    ((is_disabled true 75 po ≡ true) → delta_factory true 75 po deltas ≡ none)
    × ((is_disabled true 75 po ≡ false)
        → IsChoice (po.size * 75) deltas (delta_factory true 75 po deltas))
delta_factory-IsChoice_example = delta_factory-IsChoice true 75 po deltas

abbrev verifies : ℕ → Bool
verifies pload = true

-- A number above all those of the processes that run.
abbrev spawn : Dict ℕ ℕ → ℕ
spawn [] = 100
spawn ((p, pload) ∷ jobs) = suc (p + spawn jobs)

above : (p n : ℕ) (jobs : Dict ℕ ℕ) → spawn jobs ≤ n → has_pid n jobs ≡ false
above p n [] h = refl
above p n ((q, pload) ∷ jobs) h = ground (arith, h, above q n jobs (omega (arith, h)))

spawn_fresh : (jobs : Dict ℕ ℕ) → has_pid (spawn jobs) jobs ≡ false
spawn_fresh jobs = above 0 (spawn jobs) jobs (omega arith)

-- The process that started first ends next, with code 0.
abbrev os_wait : Dict ℕ ℕ → ℕ × ℕ
os_wait [] = (0, 0)
os_wait ((p, pload) ∷ jobs) = (p, 0)

os_wait_running :
    (jobs : Dict ℕ ℕ) → is_nil verifies spawn 2 jobs ≡ false → has_pid (os_wait jobs).0 jobs ≡ true
os_wait_running [] h = ground (arith, h)
os_wait_running ((p, pload) ∷ jobs) h = ground (arith, ℕ_eq.beq_iff p p)

abbrev busy : State
busy = record { queue = []; jobs = (7, 1) ∷ (9, 2) ∷ []; finished = [] }

enqueue-busy :
    enqueue verifies spawn 2 ((9, 1) ∷ []) 3 busy
    ≡ some
        (record { queue = []; jobs = (7, 1) ∷ (108, 3) ∷ []; finished = (2, rebuild_failed) ∷ [] })
unfolding program
enqueue-busy = refl

busy-AreRunning : AreRunning ((9, 1) ∷ []) busy.jobs
unfolding program
busy-AreRunning = (refl, λ v left e. tt)

enqueue-IsBounded_example :
    (t : State) × (enqueue verifies spawn 2 ((9, 1) ∷ []) 3 busy ≡ some t)
    × IsBounded 2 t
    × (total t ≡ suc (total busy))
enqueue-IsBounded_example =
    enqueue-IsBounded verifies spawn 2 spawn_fresh ((9, 1) ∷ []) 3 busy (omega arith)
      busy-AreRunning

abbrev waiting : State
waiting = record { queue = 3 ∷ []; jobs = (7, 1) ∷ (9, 2) ∷ []; finished = [] }

wait-waiting :
    wait verifies spawn 2 os_wait 3 waiting
    ≡ some (record {
      queue = [];
      jobs = [];
      finished = (1, rebuilt) ∷ (2, rebuilt) ∷ (3, rebuilt) ∷ [];
    })
unfolding program
wait-waiting = refl

wait-finished_example :
    (t : State) × (wait verifies spawn 2 os_wait 3 waiting ≡ some t)
    × (t.queue ≡ [])
    × (t.jobs ≡ [])
    × (length t.finished ≡ total waiting)
wait-finished_example =
    wait-finished verifies spawn 2 spawn_fresh os_wait os_wait_running 3 waiting (omega arith)
      (omega arith, λ e. refl) (omega arith)
