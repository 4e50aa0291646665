-- ===== src/Marks/Queries.antt =====
-- Queries and the packages that they find.
use dnf.Base.{Bool, false, ◌||◌, List, [], ◌∷◌, ◌++◌, any, All, ◌≡◌, refl, arith}
use dnf.Marks.{Package, Query, run}

pub any-append :
    {A : Type 0} (q : A → Bool) (xs ys : List A) → any q (xs ++ ys) ≡ (any q xs || any q ys)
any-append q [] ys = refl
any-append q (x ∷ xs) ys = ground (arith, any-append q xs ys)

-- A query that finds none finds no package of the sack.
pub All-found :
    (sack xs : List Package)
    → ((q : Query) → any q sack ≡ false → any q xs ≡ false)
    → All (λ p. (q : Query) → any q sack ≡ false → q p ≡ false) xs
All-found sack [] h = tt
All-found sack (p ∷ xs) h =
    (λ q e. ground (arith, h q e), All-found sack xs (λ q e. ground (arith, h q e)))

pub run-cong : (q r : Query) (xs : List Package) → All (λ p. q p ≡ r p) xs → run xs q ≡ run xs r
run-cong q r [] h = refl
run-cong q r (p ∷ xs) h = rw (h.0, run-cong q r xs h.1) refl

pub run-none :
    (q r : Query) (xs : List Package)
    → ((p : Package) → q p ≡ false → r p ≡ false)
    → any q xs ≡ false
    → run xs r ≡ []
run-none q r [] h e = refl
run-none q r (p ∷ xs) h e = rw (h p (ground (arith, e))) (run-none q r xs h (ground (arith, e)))

pub All-every : {A : Type 0} (P : A → Type 0) → ((a : A) → P a) → (xs : List A) → All P xs
All-every P h [] = tt
All-every P h (a ∷ xs) = (h a, All-every P h xs)
