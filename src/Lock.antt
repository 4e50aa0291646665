-- ===== src/Lock.antt =====
-- dnf/lock.py: the lock on a directory, one for threads and one for processes.
mod Paths
mod Attempts
mod Exclusion
mod Race
mod Tests
use dnf.Base.{
  ℕ, zero, suc, ◌+◌, ◌-◌, Bool, true, false, not, ◌&&◌, Option, none, some, List, [], ◌∷◌, ◌++◌,
  ◌==◌, ℕ_eq, if◌then◌else◌,
}

-- What `os.read` and `int` make of the lock file: nothing, a number, or neither.
pub data Content : Type 0 where
  empty malformed : Content
  pid_text : ℕ → Content

-- What `fcntl.flock` answers to LOCK_EX | LOCK_NB.
pub data Flock : Type 0 where
  acquired would_block refused : Flock

-- `_try_lock` returns a pid or -1, or it raises LockError or OSError.
pub data TryLock : Type 0 where
  got : ℕ → TryLock
  minus_one lock_error os_error : TryLock

-- The part of `_try_lock` under the flock, on the content of the open file.
pub hold : ℕ → (ℕ → Bool) → Content → TryLock × Content
hold pid alive empty = (got pid, pid_text pid)
hold pid alive malformed = (lock_error, malformed)
hold pid alive (pid_text old_pid) =
    if old_pid == pid
    then (got pid, pid_text old_pid)
    else if alive old_pid
    then (got old_pid, pid_text old_pid)
    else (got pid, pid_text pid)

-- `os.open` with O_CREAT makes an empty file where there is none.
abbrev pub opened : Option Content → Content
opened none = empty
opened (some content) = content

-- What one attempt meets: the lock file, the processes that live, and the answer of `flock`.
pub record Sight : Type 0 where
  pub file : Option Content
  pub alive : ℕ → Bool
  pub flock : Flock

pub try_lock : ℕ → Sight → TryLock × Content
unfolding hold
try_lock pid sight = elim sight.flock [
  | acquired ↦ hold pid sight.alive (opened sight.file)
  | would_block ↦ (minus_one, opened sight.file)
  | refused ↦ (os_error, opened sight.file)
]

-- A `ProcessLock`; `owner` and `depth` are its `threading.RLock`.
pub record ProcessLock : Type 0 where
  pub blocking : Bool
  pub count : ℕ
  pub owner : Option ℕ
  pub depth : ℕ

abbrev pub fresh : Bool → ProcessLock
fresh blocking = record { blocking = blocking; count = 0; owner = none; depth = 0 }

-- `_lock_thread`; `none` is ThreadLockError.
pub lock_thread : ℕ → ProcessLock → Option ProcessLock
lock_thread thread l = elim l.owner [
  | none ↦ some (record l { count = l.count + 1; owner = some thread; depth = 1 })
  | some t ↦
      if t == thread then some (record l { count = l.count + 1; depth = l.depth + 1 }) else none
]

-- `_unlock_thread`, by the thread that holds the RLock.
pub unlock_thread : ProcessLock → ProcessLock
unlock_thread l = record l {
  count = l.count - 1;
  owner = if l.depth == 1 then none else l.owner;
  depth = l.depth - 1;
}

-- How `__enter__` ends. `still_waiting`: the attempts at hand did not end it.
pub data Entry : Type 0 where
  entered thread_lock_error malformed_lock_file os_failure still_waiting : Entry
  process_lock_error : ℕ → Entry

pub record Entering : Type 0 where
  pub outcome : Entry
  pub lock : ProcessLock
  pub announced : List ℕ

abbrev is_announced : Option ℕ → ℕ → Bool
is_announced none pid = false
is_announced (some prev) pid = prev == pid

-- What the loop does with the answer of an attempt: it ends, or it sleeps, where `prev_pid` (`none`
-- stands for -1) is the pid announced last.
pub data Verdict : Type 0 where
  ends : Entry → Verdict
  sleeps : (prev_pid : Option ℕ) → List ℕ → Verdict

pub judge : ℕ → Bool → Option ℕ → List ℕ → TryLock → Verdict
judge my_pid blocking prev_pid said lock_error = ends malformed_lock_file
judge my_pid blocking prev_pid said os_error = ends os_failure
judge my_pid blocking prev_pid said minus_one = sleeps prev_pid said
judge my_pid blocking prev_pid said (got pid) =
    if pid == my_pid
    then ends entered
    else if not blocking
    then ends (process_lock_error pid)
    else if is_announced prev_pid pid
    then sleeps prev_pid said
    else sleeps (some pid) (said ++ pid ∷ [])

-- The lock behind an ended `__enter__`: it is given back only where ProcessLockError is raised.
pub leave : Entry → ProcessLock → ProcessLock
unfolding unlock_thread
leave (process_lock_error pid) l = unlock_thread l
leave _ l = l

-- The loop of `__enter__`, over what its attempts meet.
pub wait : ℕ → ProcessLock → Option ℕ → List ℕ → List Sight → Entering
wait my_pid l prev_pid said [] = record { outcome = still_waiting; lock = l; announced = said }
wait my_pid l prev_pid said (sight ∷ sights) =
    elim (judge my_pid l.blocking prev_pid said (try_lock my_pid sight).0) [
      | ends e ↦ record { outcome = e; lock = leave e l; announced = said }
      | sleeps prev said' ↦ wait my_pid l prev said' sights
    ]

-- `__enter__`
pub enter : ℕ → ℕ → ProcessLock → List Sight → Entering
enter my_pid thread l sights = elim (lock_thread thread l) [
  | none ↦ record { outcome = thread_lock_error; lock = l; announced = [] }
  | some locked ↦ wait my_pid locked none [] sights
]

-- How `__exit__` ends: it returns, with the lock file unlinked or not, or `os.unlink` raises.
pub data Exit : Type 0 where
  left : (is_unlinked : Bool) → Exit
  unlink_failed : Exit

-- `__exit__`, where the system lets the lock file be unlinked, or not.
pub exit : (is_unlinkable : Bool) → ProcessLock → Exit × ProcessLock
unfolding unlock_thread
exit is_unlinkable l =
    if (l.count == 1) && not is_unlinkable
    then (unlink_failed, l)
    else (left (l.count == 1), unlock_thread l)
