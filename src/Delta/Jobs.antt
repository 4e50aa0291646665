-- ===== src/Delta/Jobs.antt =====
-- The running jobs of `DeltaInfo`, by process.
use dnf.Base.{
  ℕ, suc, Bool, true, false, some, [], ◌∷◌, length, any, ◌==◌, ℕ_eq, ◌≡◌, refl, arith, Bool-cases,
  Option-cases, inl, inr,
}
use dnf.Base.Dict.{Dict, insert}
use dnf.Delta.{pop}

abbrev pub has_pid : ℕ → Dict ℕ ℕ → Bool
has_pid pid jobs = any (λ (p, pload). p == pid) jobs

pub pop-length :
    (pid v : ℕ) (jobs left : Dict ℕ ℕ)
    → pop pid jobs ≡ some (v, left)
    → length jobs ≡ suc (length left)
unfolding pop
pop-length pid v [] left e = ground (arith, e)
pop-length pid v ((p, pload) ∷ jobs) left e = elim (Bool-cases (p == pid)) [
  | inl t ↦ ground (arith, t, e)
  | inr t ↦ elim (Option-cases (pop pid jobs)) [
    | inl n ↦ ground (arith, t, n, e)
    | inr ((found, more), s) ↦ ground (arith, t, s, e, pop-length pid found jobs more s)
  ]
]

pub pop-some :
    (pid : ℕ) (jobs : Dict ℕ ℕ)
    → has_pid pid jobs ≡ true
    → (v : ℕ) × (left : Dict ℕ ℕ) × (pop pid jobs ≡ some (v, left))
unfolding pop
pop-some pid [] h = ground (arith, h)
pop-some pid ((p, pload) ∷ jobs) h = elim (Bool-cases (p == pid)) [
  | inl t ↦ (pload, jobs, rw (t, pop) refl)
  | inr t ↦
      let (v, left, s) = pop-some pid jobs (ground (arith, h, t)) in
      (v, (p, pload) ∷ left, rw (t, pop, s) refl)
]

pub length-insert :
    (pid v : ℕ) (jobs : Dict ℕ ℕ)
    → has_pid pid jobs ≡ false
    → length (insert pid v jobs) ≡ suc (length jobs)
unfolding insert
length-insert pid v [] h = refl
length-insert pid v ((p, pload) ∷ jobs) h =
    ground (arith, h, length-insert pid v jobs (ground (arith, h)))
