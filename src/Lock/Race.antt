-- ===== src/Lock/Race.antt =====
-- `_try_lock` of dnf/lock.py in two steps, as the system runs it: it opens the lock file, and later
-- it takes the flock on what it opened. In between, another process may unlink the file.
use dnf.Base.{
  ℕ, ◌+◌, ◌≡◌, ◌≢◌, Bool, true, false, ◌&&◌, Option, none, some, List, [], ◌∷◌, ◌==◌, ℕ_eq,
  if◌then◌else◌, arith,
}
use dnf.Lock.{Content, empty, TryLock, got, hold}
use dnf.Lock.Exclusion.{at}

-- The directory entry of the lock file, the files by inode, and what each process has open.
pub record FileSystem : Type 0 where
  pub entry : Option ℕ
  pub next_inode : ℕ
  pub contents : ℕ → Content
  pub open_file : ℕ → Option ℕ
  pub inside : ℕ → Bool
  pub alive : ℕ → Bool

pub data Action : Type 0 where
  opens locks leaves dies : ℕ → Action

-- `os.open(self.target, os.O_CREAT | os.O_RDWR)`
open_target : ℕ → FileSystem → FileSystem
open_target p s = elim s.entry [
  | some inode ↦ record s { open_file = at s.open_file p (some inode) }
  | none ↦ record s {
    entry = some s.next_inode;
    next_inode = s.next_inode + 1;
    contents = at s.contents s.next_inode empty;
    open_file = at s.open_file p (some s.next_inode);
  }
]

abbrev is_own : ℕ → TryLock → Bool
is_own p (got pid) = pid == p
is_own p _ = false

-- From the flock to `os.close`.
lock_opened : ℕ → FileSystem → FileSystem
lock_opened p s = elim (s.open_file p) [
  | none ↦ s
  | some inode ↦
      let (answer, content) = hold p s.alive (s.contents inode) in
      record s {
        contents = at s.contents inode content;
        open_file = at s.open_file p none;
        inside = if is_own p answer then at s.inside p true else s.inside;
      }
]

-- What a process that is not alive, or not inside, cannot do changes nothing.
pub act : FileSystem → Action → FileSystem
unfolding open_target lock_opened
act s (opens p) = if s.alive p then open_target p s else s
act s (locks p) = if s.alive p then lock_opened p s else s
act s (leaves p) =
    if s.alive p && s.inside p then record s { entry = none; inside = at s.inside p false } else s
act s (dies p) = record s { alive = at s.alive p false; open_file = at s.open_file p none }

pub run : FileSystem → List Action → FileSystem
unfolding act
run s [] = s
run s (a ∷ as_) = run (act s a) as_

abbrev pub no_file : FileSystem
no_file = record {
  entry = none;
  next_inode = 0;
  contents = λ inode. empty;
  open_file = λ p. none;
  inside = λ p. false;
  alive = λ p. true;
}

-- `q` opens the file while `p` is inside; `p` leaves, and ends, before `q` takes the flock. So `q`
-- locks a file that has no name any more, and `r` makes a new one.
abbrev pub unlinked_race : ℕ → ℕ → ℕ → List Action
unlinked_race p q r =
    opens p ∷ locks p ∷ opens q ∷ leaves p ∷ dies p ∷ locks q ∷ opens r ∷ locks r ∷ []

-- For any three processes, there is an order of their steps after which two of them are alive
-- and inside at once.
pub run-unlinked_race :
    (p q r : ℕ)
    → p ≢ q
    → p ≢ r
    → q ≢ r
    → let s = run no_file (unlinked_race p q r) in
      (s.alive q ≡ true) × (s.alive r ≡ true) × (s.inside q ≡ true) × (s.inside r ≡ true)
unfolding run hold
run-unlinked_race p q r pq pr qr = ground arith
