-- ===== src/Aliases/Ranked.antt =====
-- When `_resolve` (dnf/cli/aliases.py) raises "Aliases contain infinite recursion", and how the
-- escaping by '\' ends the resolving.
use native.Mathlib.Nat.{le_trans}
use dnf.Base.{
  ℕ, zero, suc, ◌<◌, String, ◌≡◌, refl, sym, ◌∙◌, ◌≢◌, true, some, List, [], ◌∷◌, arith, mem,
  String_eq, eq_iff, All, All-imp, All-drop,
}
use dnf.Base.Dict.{lookup}
use dnf.Aliases.{
  Args, AliasTable, Resolver, Outcome, finished, infinite_recursion, out_of_fuel, finish, start,
  after_alias, visit, subresolve, store_prefix, count_options, resolve_args, to_resolved,
  recursion_error,
}
use dnf.Aliases.Total.{stack_restored}
use dnf.Aliases.Stack.{ends, repeats, expands, Visit-cases}

-- Every alias stands for words of which the aliases have a lower rank: no alias leads to itself.
abbrev pub IsRanked : (String → ℕ) → AliasTable → Type 0
IsRanked rank aliases =
    (name : String) (body : Args)
    → lookup name aliases ≡ some body
    → All (λ word. (b : Args) → lookup word aliases ≡ some b → rank word < rank name) body

finish-ne_recursion :
    (word : String) (rest : Args) (s : Resolver) → finish word rest s ≢ infinite_recursion
unfolding finish
finish-ne_recursion word rest s h = ground arith

module _ (rank : String → ℕ) (aliases : AliasTable) where
  -- The aliases among the arguments have a lower rank than all names on the stack.
  abbrev Below : List String → Args → Type 0
  Below stack args =
      All (λ word. (b : Args) → lookup word aliases ≡ some b → All (λ t. rank word < rank t) stack)
        args

  not-mem-below :
      (word : String) (stack : List String)
      → All (λ t. rank word < rank t) stack
      → mem word stack ≢ true
  not-mem-below word [] below m = cc
  not-mem-below word (t ∷ stack) below m =
      ground (arith, eq_iff word t, not-mem-below word stack below.1)

  abbrev IsSafe : (Args → Resolver → Outcome) → Type 0
  IsSafe f = (args : Args) (s : Resolver) → Below s.stack args → f args s ≢ infinite_recursion

  after_alias-ne_recursion :
      (f : Args → Resolver → Outcome) (rest : Args) (o : Outcome)
      → o ≢ infinite_recursion
      → ((s₁ : Resolver) → o ≡ finished [] s₁ → f rest s₁ ≢ infinite_recursion)
      → after_alias f rest o ≢ infinite_recursion
  unfolding after_alias
  after_alias-ne_recursion f rest (finished [] s) inner outer h = outer s refl h
  after_alias-ne_recursion f rest (finished (w ∷ ws) s) inner outer h = cc
  after_alias-ne_recursion f rest infinite_recursion inner outer h = inner refl
  after_alias-ne_recursion f rest out_of_fuel inner outer h = cc

  module _ (ranked : IsRanked rank aliases) where
    body-Below :
        (word : String) (body : Args) (stack : List String)
        → lookup word aliases ≡ some body
        → All (λ t. rank word < rank t) stack
        → Below (word ∷ stack) body
    body-Below word body stack found low =
        All-imp body
          (λ v lower b e.
            (lower b e, All-imp stack (λ t h. le_trans (lower b e) (omega arith)) low))
          (ranked word body found)

    visit-IsSafe :
        (fuel : ℕ)
        → IsSafe (subresolve aliases fuel)
        → IsSafe (visit aliases (subresolve aliases fuel))
    unfolding visit
    visit-IsSafe fuel safe [] s below e = cc
    visit-IsSafe fuel safe (word ∷ rest) s below e =
        elim (Visit-cases aliases (subresolve aliases fuel) word rest s) [
          | ends _ p ↦ finish-ne_recursion word rest s (sym p ∙ e)
          | repeats body found again p ↦ not-mem-below word s.stack (below.0 body found) again
          | expands body found new p ↦
              after_alias-ne_recursion (subresolve aliases fuel) rest _
                (safe body _ (body-Below word body s.stack found (below.0 body found)))
                (λ s₁ q. safe rest s₁ (rw (stack_restored aliases fuel word body s s₁ q) below.1))
                (sym p ∙ e)
        ]

    subresolve-IsSafe : (fuel : ℕ) → IsSafe (subresolve aliases fuel)
    unfolding subresolve store_prefix
    subresolve-IsSafe zero args s below e = cc
    subresolve-IsSafe (suc fuel) args s below e =
        visit-IsSafe fuel (subresolve-IsSafe fuel) _ _ (All-drop _ (count_options args) args below)
          e

to_resolved-ne_error : (o : Outcome) → o ≢ infinite_recursion → to_resolved o ≢ recursion_error
unfolding to_resolved
to_resolved-ne_error (finished w s) h e = cc
to_resolved-ne_error infinite_recursion h e = h refl
to_resolved-ne_error out_of_fuel h e = cc

start-Below : (rank : String → ℕ) (aliases : AliasTable) (args : Args) → Below rank aliases [] args
start-Below rank aliases [] = tt
start-Below rank aliases (w ∷ ws) = (λ b e. tt, start-Below rank aliases ws)

-- The error for infinite recursion is never raised for aliases of which none leads back to itself,
-- whatever the arguments and the fuel.
pub resolve_args-ne_recursion_error :
    (fuel : ℕ) (rank : String → ℕ) (aliases : AliasTable) (args : Args)
    → IsRanked rank aliases
    → resolve_args fuel aliases args ≢ recursion_error
unfolding resolve_args
resolve_args-ne_recursion_error fuel rank aliases args ranked =
    to_resolved-ne_error _
      (subresolve-IsSafe rank aliases ranked fuel args start (start-Below rank aliases args))
