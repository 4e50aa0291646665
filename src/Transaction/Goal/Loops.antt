-- ===== src/Transaction/Goal/Loops.antt =====
-- The loops of `_goal2transaction`: what the items grow by, and when a loop is an exception.
use dnf.Base.{
  Bool, true, false, ◌&&◌, Option, none, some, List, [], ◌∷◌, ◌++◌, ◌≡◌, refl, arith, append_assoc,
  ap, sym, subst, ◌∙◌, append-nil, Option-cases, inl, inr, ℕ_eq, String_eq,
}
use dnf.Transaction.{Package, Items, install_set}
use dnf.Transaction.Goal.{for_each}
use dnf.Transaction.Links.{IsLinked}

abbrev pub is_some : Option Items → Bool
is_some none = false
is_some (some ts) = true

abbrev pub is_cons : List Package → Bool
is_cons [] = false
is_cons (p ∷ ps) = true

pub snoc-is_cons : (ps : List Package) (p : Package) → is_cons (ps ++ p ∷ []) ≡ true
snoc-is_cons [] p = refl
snoc-is_cons (q ∷ ps) p = refl

abbrev pub all : (Package → Bool) → List Package → Bool
all ok [] = true
all ok (p ∷ ps) = ok p && all ok ps

pub all-true : (ps : List Package) → all (λ p. true) ps ≡ true
all-true [] = refl
all-true (p ∷ ps) = all-true ps

pub and-true : (x y z : Bool) → ((((x && y) && true) && z) && true) ≡ (x && y && z)
and-true x y z = ground arith

-- The items grow by packages that appear on the system, and the links stay right.
abbrev pub Adds : List Package → Items → Items → Type 0
Adds ps before after =
    (IsLinked before → IsLinked after) × (install_set after ≡ install_set before ++ ps)

pub Adds-trans :
    (ps qs : List Package) (a b c : Items) → Adds ps a b → Adds qs b c → Adds (ps ++ qs) a c
Adds-trans ps qs a b c h k =
    (λ l. k.0 (h.0 l), k.1 ∙ ap (λ s. s ++ qs) h.1 ∙ append_assoc (install_set a) ps qs)

abbrev pub gather : (Package → List Package) → List Package → List Package
gather gained [] = []
gather gained (p ∷ ps) = gained p ++ gather gained ps

pub gather-each : (ps : List Package) → gather (λ p. p ∷ []) ps ≡ ps
gather-each [] = refl
gather-each (p ∷ ps) = ap (λ l. p ∷ l) (gather-each ps)

pub gather-nil : (ps : List Package) → gather (λ p. []) ps ≡ []
gather-nil [] = refl
gather-nil (p ∷ ps) = gather-nil ps

pub some-injective : {a b : Items} → some a ≡ some b → a ≡ b
some-injective e = ground (arith, e)

pub Adds-some : (ps : List Package) (a b c : Items) → some b ≡ some c → Adds ps a b → Adds ps a c
Adds-some ps a b c e h = subst (λ t. Adds ps a t) (some-injective e) h

module _ (step : Package → Items → Option Items) where
  pub for_each-Adds :
      (gained : Package → List Package)
      → ((p : Package) (a b : Items) → step p a ≡ some b → Adds (gained p) a b)
      → (ps : List Package) (a b : Items) → for_each step ps a ≡ some b
      → Adds (gather gained ps) a b
  unfolding for_each
  for_each-Adds gained h [] a b e =
      subst (λ t. Adds [] a t) (some-injective e) (λ l. l, sym (append-nil (install_set a)))
  for_each-Adds gained h (p ∷ ps) a b e = elim (Option-cases (step p a)) [
    | inl n ↦ ground (arith, e, n)
    | inr (c, s) ↦
        Adds-trans (gained p) (gather gained ps) a c b (h p a c s)
          (for_each-Adds gained h ps c b (ground (arith, e, s)))
  ]

  pub for_each-is_some :
      (ok : Package → Bool)
      → ((p : Package) (a : Items) → is_some (step p a) ≡ ok p)
      → (ps : List Package) (a : Items) → is_some (for_each step ps a) ≡ all ok ps
  unfolding for_each
  for_each-is_some ok h [] a = refl
  for_each-is_some ok h (p ∷ ps) a = elim (Option-cases (step p a)) [
    | inl n ↦ ground (arith, n, h p a)
    | inr (c, s) ↦ ground (arith, s, h p a, for_each-is_some ok h ps c)
  ]

  pub always-is_some :
      ((p : Package) (a : Items) → is_some (step p a) ≡ true)
      → (ps : List Package) (a : Items) → is_some (for_each step ps a) ≡ true
  always-is_some h ps a = for_each-is_some (λ p. true) h ps a ∙ all-true ps
