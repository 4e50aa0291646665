-- ===== src/Delta/Choice.antt =====
-- Which delta `delta_factory` of dnf/drpm.py takes.
use dnf.Base.{
  ℕ, ◌*◌, ◌≤◌, ◌<◌, Bool, true, false, not, ◌||◌, Option, none, some, List, [], ◌∷◌, any, All, ltb,
  ◌==◌, ℕ_eq, ◌≡◌, ◌⊎◌, refl, arith, Bool-cases, inl, inr,
}
use dnf.Delta.{Po, find_best, delta_factory}

abbrev pub AtLeast : ℕ → Option ℕ → Type 0
AtLeast limit none = Unit
AtLeast limit (some downloadsize) = limit ≤ 100 * downloadsize

abbrev pub NotSmaller : ℕ → Option ℕ → Type 0
NotSmaller size none = Unit
NotSmaller size (some downloadsize) = size ≤ downloadsize

abbrev pub is_size : ℕ → Option ℕ → Bool
is_size size none = false
is_size size (some downloadsize) = downloadsize == size

-- The smallest of the deltas, if it is below a hundredth of the limit; nothing if none is.
abbrev pub IsChoice : ℕ → List (Option ℕ) → Option ℕ → Type 0
IsChoice limit deltas none = All (AtLeast limit) deltas
IsChoice limit deltas (some size) =
    (100 * size < limit) × All (NotSmaller size) deltas × (any (is_size size) deltas ≡ true)

find_best-some :
    (best size : ℕ) (deltas : List (Option ℕ))
    → best ≡ 100 * size
    → (r : ℕ) × (find_best best (some size) deltas ≡ some r)
      × (r ≤ size)
      × All (NotSmaller r) deltas
      × ((r ≡ size) ⊎ (any (is_size r) deltas ≡ true))
unfolding find_best
find_best-some best size [] e = (size, refl, omega arith, tt, inl refl)
find_best-some best size (none ∷ deltas) e =
    let (r, f, l, a, m) = find_best-some best size deltas e in (r, f, l, (tt, a), m)
find_best-some best size (some d ∷ deltas) e = elim (Bool-cases (ltb (100 * d) best)) [
  | inl t ↦
      let (r, f, l, a, m) = find_best-some (100 * d) d deltas refl in
      (r, rw (t, find_best) f, ground (arith, t, l, e), (l, a), inr (ground (arith, m)))
  | inr t ↦
      let (r, f, l, a, m) = find_best-some best size deltas e in
      (r, rw (t, find_best) f, l, (ground (arith, t, l, e), a), ground (arith, m))
]

IsChoice-none :
    (limit : ℕ) (deltas : List (Option ℕ)) (o : Option ℕ)
    → IsChoice limit deltas o
    → IsChoice limit (none ∷ deltas) o
IsChoice-none limit deltas none h = (tt, h)
IsChoice-none limit deltas (some r) h = (h.0, (tt, h.1), h.2)

IsChoice-some :
    (limit d : ℕ) (deltas : List (Option ℕ)) (o : Option ℕ)
    → limit ≤ 100 * d
    → IsChoice limit deltas o
    → IsChoice limit (some d ∷ deltas) o
IsChoice-some limit d deltas none l h = (l, h)
IsChoice-some limit d deltas (some r) l h = (h.0, (omega (arith, l, h.0), h.1), ground (arith, h.2))

find_best-IsChoice :
    (limit : ℕ) (deltas : List (Option ℕ)) → IsChoice limit deltas (find_best limit none deltas)
unfolding find_best
find_best-IsChoice limit [] = tt
find_best-IsChoice limit (none ∷ deltas) =
    IsChoice-none limit deltas _ (find_best-IsChoice limit deltas)
find_best-IsChoice limit (some d ∷ deltas) = elim (Bool-cases (ltb (100 * d) limit)) [
  | inl t ↦
      let (r, f, l, a, m) = find_best-some (100 * d) d deltas refl in
      rw (t, find_best, f) (ground (arith, t, l), (l, a), ground (arith, m))
  | inr t ↦
      rw (t, find_best)
        (IsChoice-some limit d deltas _ (ground (arith, t)) (find_best-IsChoice limit deltas))
]

abbrev pub is_disabled : Bool → ℕ → Po → Bool
is_disabled deltarpm_installed deltarpm_percentage po =
    not deltarpm_installed
    || not po.repo_deltarpm
    || (deltarpm_percentage == 0)
    || po.is_local
    || po.exists_locally

-- Where deltas are disabled, or the package is local or already there, no delta is taken. Else the
-- smallest one is, if it is strictly smaller than the percentage of the package's size, and none
-- otherwise; so one of exactly the percentage is not taken.
pub delta_factory-IsChoice :
    (deltarpm_installed : Bool) (deltarpm_percentage : ℕ) (po : Po) (deltas : List (Option ℕ))
    → ((is_disabled deltarpm_installed deltarpm_percentage po ≡ true)
        → delta_factory deltarpm_installed deltarpm_percentage po deltas ≡ none)
      × ((is_disabled deltarpm_installed deltarpm_percentage po ≡ false)
          → IsChoice
              (po.size * deltarpm_percentage)
              deltas
              (delta_factory deltarpm_installed deltarpm_percentage po deltas))
unfolding delta_factory
delta_factory-IsChoice deltarpm_installed deltarpm_percentage po deltas =
    (λ h. rw h refl, λ h. rw h (find_best-IsChoice (po.size * deltarpm_percentage) deltas))
