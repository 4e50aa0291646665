-- ===== src/Aliases/Total.antt =====
-- How deep the calls of `subresolve` (dnf/cli/aliases.py) go.
use Prim.Native.Nat.{max}
use dnf.Base.{
  ℕ, zero, suc, ◌+◌, ◌*◌, ◌≤◌, ◌<◌, String, ◌≡◌, refl, sym, ◌∙◌, ◌≢◌, false, some, List, [], ◌∷◌,
  arith, length, length-drop-le, mem, String_eq, eq_iff, if◌then◌else◌,
}
use dnf.Base.Dict.{lookup}
use dnf.Aliases.{
  Args, AliasTable, Resolver, Outcome, finished, infinite_recursion, out_of_fuel, finish, start,
  after_alias, visit, subresolve, store_prefix, count_options, pop, resolve_args, unfinished,
  to_resolved,
}
use dnf.Aliases.Stack.{ends, repeats, expands, Visit-cases, subresolve-Pops}

-- The entries whose name is not on the stack.
unfoldable pub free : List String → AliasTable → ℕ
free stack [] = 0
free stack ((name, body) ∷ table) =
    let rest = free stack table in if mem name stack then rest else suc rest

-- The longest text of an alias.
unfoldable pub longest : AliasTable → ℕ
longest [] = 0
longest ((name, body) ∷ table) = max (length body) (longest table)

length-lookup-le :
    (word : String) (table : AliasTable) (body : Args)
    → lookup word table ≡ some body
    → length body ≤ longest table
unfolding lookup longest
length-lookup-le word [] body h = cc
length-lookup-le word ((name, b) ∷ table) body h = ground (arith, length-lookup-le word table body)

free-push-le :
    (word : String) (stack : List String) (table : AliasTable)
    → free (word ∷ stack) table ≤ free stack table
unfolding free
free-push-le word stack [] = omega arith
free-push-le word stack ((name, b) ∷ table) = ground (arith, free-push-le word stack table)

free-push-lt :
    (word : String) (stack : List String) (table : AliasTable) (body : Args)
    → lookup word table ≡ some body
    → mem word stack ≡ false
    → free (word ∷ stack) table < free stack table
unfolding free lookup
free-push-lt word stack [] body h new = cc
free-push-lt word stack ((name, b) ∷ table) body h new = ground (
  arith,
  free-push-le word stack table,
  free-push-lt word stack table body,
  eq_iff word name,
  eq_iff name word,
)

-- Calls nest at most this deep.
unfoldable pub depth : AliasTable → List String → Args → ℕ
unfolding free longest
depth table stack args = length args + 1 + free stack table * (longest table + 1)

after_alias-ne_out :
    (f : Args → Resolver → Outcome) (rest : Args) (o : Outcome)
    → o ≢ out_of_fuel
    → ((s₁ : Resolver) → o ≡ finished [] s₁ → f rest s₁ ≢ out_of_fuel)
    → after_alias f rest o ≢ out_of_fuel
unfolding after_alias
after_alias-ne_out f rest (finished [] s) inner outer h = outer s refl h
after_alias-ne_out f rest (finished (w ∷ ws) s) inner outer h = cc
after_alias-ne_out f rest infinite_recursion inner outer h = cc
after_alias-ne_out f rest out_of_fuel inner outer h = inner refl

finish-ne_out : (word : String) (rest : Args) (s : Resolver) → finish word rest s ≢ out_of_fuel
unfolding finish
finish-ne_out word rest s h = ground arith

module _ (aliases : AliasTable) where
  -- Enough fuel for the call on the alias's words, and for the one on the rest.
  body_fits :
      (word : String) (rest : Args) (stack : List String) (body : Args) {fuel : ℕ}
      → lookup word aliases ≡ some body
      → mem word stack ≡ false
      → depth aliases stack (word ∷ rest) ≤ suc fuel
      → depth aliases (word ∷ stack) body ≤ fuel
  unfolding depth
  body_fits word rest stack body found new h = grind (
    arith,
    length-lookup-le word aliases body found,
    free-push-lt word stack aliases body found new,
  )

  rest_fits :
      (word : String) (rest : Args) (stack : List String) {fuel : ℕ}
      → depth aliases stack (word ∷ rest) ≤ suc fuel
      → depth aliases stack rest ≤ fuel
  unfolding depth
  rest_fits word rest stack h = omega arith

  pub stack_restored :
      (fuel : ℕ) (word : String) (body : Args) (s s₁ : Resolver)
      → subresolve aliases fuel body (record s { stack = word ∷ s.stack }) ≡ finished [] s₁
      → s₁.stack ≡ s.stack
  unfolding pop
  stack_restored fuel word body s s₁ q = subresolve-Pops aliases fuel body _ s₁ q

  visit_total :
      (fuel : ℕ)
      → ((args : Args) (s : Resolver)
          → depth aliases s.stack args ≤ fuel
          → subresolve aliases fuel args s ≢ out_of_fuel)
      → (args : Args) (s : Resolver) → depth aliases s.stack args ≤ suc fuel
      → visit aliases (subresolve aliases fuel) args s ≢ out_of_fuel
  unfolding visit
  visit_total fuel total [] s h e = cc
  visit_total fuel total (word ∷ rest) s h e =
      elim (Visit-cases aliases (subresolve aliases fuel) word rest s) [
        | ends _ p ↦ finish-ne_out word rest s (sym p ∙ e)
        | repeats _ _ _ p ↦ cc
        | expands body found new p ↦
            after_alias-ne_out (subresolve aliases fuel) rest _
              (total body _ (body_fits word rest s.stack body found new h))
              (λ s₁ q.
                total rest s₁
                  (rw (stack_restored fuel word body s s₁ q) (rest_fits word rest s.stack h)))
              (sym p ∙ e)
      ]

  subresolve_total :
      (fuel : ℕ) (args : Args) (s : Resolver)
      → depth aliases s.stack args ≤ fuel
      → subresolve aliases fuel args s ≢ out_of_fuel
  unfolding subresolve depth store_prefix
  subresolve_total zero args s h e = omega arith
  subresolve_total (suc fuel) args s h e =
      visit_total fuel (subresolve_total fuel) _ _
        (omega (arith, length-drop-le (count_options args) args)) e

-- Enough fuel for a command line.
unfoldable pub fuel_for : AliasTable → Args → ℕ
unfolding depth
fuel_for aliases args = depth aliases [] args

to_resolved-ne_unfinished : (o : Outcome) → o ≢ out_of_fuel → to_resolved o ≢ unfinished
unfolding to_resolved
to_resolved-ne_unfinished (finished w s) h e = cc
to_resolved-ne_unfinished infinite_recursion h e = cc
to_resolved-ne_unfinished out_of_fuel h e = h refl

-- Whatever the aliases and the arguments, with at least `fuel_for` levels of calls the resolving
-- ends: it returns a command line or finds the infinite recursion.
pub resolve_args-ne_unfinished :
    (fuel : ℕ) (aliases : AliasTable) (args : Args)
    → fuel_for aliases args ≤ fuel
    → resolve_args fuel aliases args ≢ unfinished
unfolding resolve_args fuel_for
resolve_args-ne_unfinished fuel aliases args h =
    to_resolved-ne_unfinished _ (subresolve_total aliases fuel args start h)
