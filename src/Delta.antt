-- ===== src/Delta.antt =====
-- `DeltaInfo` of dnf/drpm.py: which delta is taken for a package, and the queue of rebuild jobs.
pub mod Choice
pub mod Jobs
pub mod Queue
mod Tests
use dnf.Base.{
  ℕ, suc, zero, ◌+◌, ◌*◌, Bool, true, false, not, ◌&&◌, ◌||◌, Option, none, some, List, [], ◌∷◌,
  ◌++◌, length, ltb, ◌==◌, ℕ_eq, if◌then◌else◌,
}
use dnf.Base.Dict.{Dict, insert}

-- What `delta_factory` asks of a package and its repository.
pub record Po : Type 0 where
  pub repo_deltarpm : Bool
  pub is_local : Bool
  pub exists_locally : Bool
  pub size : ℕ

-- The loop over the deltas that there are from the installed versions, each by its download size.
-- `best` is a hundred times the size to stay below, since the source divides by 100.
unfoldable pub find_best : (best : ℕ) → Option ℕ → List (Option ℕ) → Option ℕ
find_best best best_delta [] = best_delta
find_best best best_delta (none ∷ deltas) = find_best best best_delta deltas
find_best best best_delta (some downloadsize ∷ deltas) =
    let taken = find_best (100 * downloadsize) (some downloadsize) deltas in
    let left = find_best best best_delta deltas in
    if ltb (100 * downloadsize) best then taken else left

unfoldable pub delta_factory :
    (deltarpm_installed : Bool) (deltarpm_percentage : ℕ) → Po → List (Option ℕ) → Option ℕ
unfolding find_best
delta_factory deltarpm_installed deltarpm_percentage po deltas =
    if not deltarpm_installed
      || not po.repo_deltarpm
      || (deltarpm_percentage == 0)
      || po.is_local
      || po.exists_locally
    then none
    else find_best (po.size * deltarpm_percentage) none deltas

-- How a rebuild ended.
pub data Outcome : Type 0 where
  rebuild_failed checksum_failed rebuilt : Outcome

-- Payloads are numbered. `finished`: those whose jobs are done, with what became of them.
pub record State : Type 0 where
  pub queue : List ℕ
  pub jobs : Dict ℕ ℕ
  pub finished : List (ℕ × Outcome)

-- `self.jobs.pop(pid)`; `none` is KeyError.
unfoldable pub pop : ℕ → Dict ℕ ℕ → Option (ℕ × Dict ℕ ℕ)
pop pid [] = none
pop pid ((p, pload) ∷ jobs) =
    let rest = pop pid jobs in
    if p == pid
    then some (pload, jobs)
    else elim rest [ none ↦ none | some (found, left) ↦ some (found, (p, pload) ∷ left) ]

-- `verifies`: does the rebuilt package have its checksum? `spawn`: the process that the system
-- starts, given those that run. `deltarpm_jobs`: how many may run.
module _ (verifies : ℕ → Bool) (spawn : Dict ℕ ℕ → ℕ) (deltarpm_jobs : ℕ) where
  abbrev outcome : ℕ → ℕ → Outcome
  outcome pload code =
      if not (code == 0)
      then rebuild_failed
      else if not (verifies pload)
      then checksum_failed
      else rebuilt

  unfoldable pub job_done : ℕ → ℕ → State → Option State
  unfolding pop
  job_done pid code s = elim (pop pid s.jobs) [
    | none ↦ none
    | some (pload, jobs) ↦ some (record {
      queue = s.queue;
      jobs = jobs;
      finished = s.finished ++ (pload, outcome pload code) ∷ [];
    })
  ]

  abbrev start_job : ℕ → Dict ℕ ℕ → Dict ℕ ℕ
  start_job pload jobs = insert (spawn jobs) pload jobs

  abbrev is_nil : Dict ℕ ℕ → Bool
  is_nil [] = true
  is_nil (j ∷ jobs) = false

  -- The first loop of `enqueue`, over the processes that have ended and their codes.
  unfoldable pub reap : List (ℕ × ℕ) → State → Option State
  unfolding job_done
  reap [] s = some s
  reap ((pid, code) ∷ ended) s =
      if is_nil s.jobs
      then some s
      else elim (job_done pid code s) [ none ↦ none | some t ↦ reap ended t ]

  -- The second loop of `enqueue`, which starts with a queue that is not empty.
  unfoldable pub start_jobs : List ℕ → Dict ℕ ℕ → List ℕ × Dict ℕ ℕ
  start_jobs [] jobs = ([], jobs)
  start_jobs (pload ∷ queue) jobs =
      let started = start_jobs queue (start_job pload jobs) in
      if ltb (length jobs) deltarpm_jobs then started else (pload ∷ queue, jobs)

  unfoldable pub enqueue : List (ℕ × ℕ) → ℕ → State → Option State
  unfolding reap start_jobs
  enqueue ended pload s = elim (reap ended s) [
    | none ↦ none
    | some t ↦
        let (queue, jobs) = start_jobs (t.queue ++ pload ∷ []) t.jobs in
        some (record { queue = queue; jobs = jobs; finished = t.finished })
  ]

  abbrev start_next : State → State
  start_next s = elim s.queue [
    | [] ↦ s
    | pload ∷ queue ↦ record { queue = queue; jobs = start_job pload s.jobs; finished = s.finished }
  ]

  -- `wait`, on fuel; `os_wait`: the process that ends next, of those that run, and its code. `none`
  -- is KeyError, or that the fuel is not enough.
  unfoldable pub wait : (os_wait : Dict ℕ ℕ → ℕ × ℕ) → ℕ → State → Option State
  unfolding job_done
  wait os_wait zero s = if is_nil s.jobs then some s else none
  wait os_wait (suc fuel) s =
      if is_nil s.jobs then some s else elim (job_done (os_wait s.jobs).0 (os_wait s.jobs).1 s) [
        | none ↦ none
        | some t ↦ wait os_wait fuel (start_next t)
      ]
