-- ===== src/Aliases/Stack.antt =====
-- What one level of `subresolve` (dnf/cli/aliases.py) does to the stack.
use dnf.Base.{
  ℕ, zero, suc, String, ◌≡◌, refl, ◌∙◌, sym, ap, true, false, some, none, [], ◌∷◌, arith, mem, inl,
  inr, Bool-cases, Option-cases, ◌⊎◌, String_eq,
}
use dnf.Base.Dict.{lookup}
use dnf.Aliases.{
  Args, AliasTable, Resolver, Outcome, finished, infinite_recursion, out_of_fuel, pop, finish,
  after_alias, visit, subresolve, store_prefix, is_escaped,
}

-- A call that comes to nothing has popped one name.
abbrev Pops : (Args → Resolver → Outcome) → Type 0
Pops f = (args : Args) (s s' : Resolver) → f args s ≡ finished [] s' → s'.stack ≡ pop s.stack

after_alias-Pops :
    (f : Args → Resolver → Outcome) (word : String) (rest : Args) (below : Resolver) (o : Outcome)
    (s' : Resolver)
    → Pops f
    → ((s₁ : Resolver) → o ≡ finished [] s₁ → s₁.stack ≡ below.stack)
    → after_alias f rest o ≡ finished [] s'
    → s'.stack ≡ pop below.stack
unfolding after_alias
after_alias-Pops f word rest below (finished [] s₁) s' pops inner h =
    pops rest s₁ s' h ∙ ap pop (inner s₁ refl)
after_alias-Pops f word rest below (finished (w ∷ ws) s₁) s' pops inner h = cc
after_alias-Pops f word rest below infinite_recursion s' pops inner h = cc
after_alias-Pops f word rest below out_of_fuel s' pops inner h = cc

finish-ne-nil :
    (word : String) (rest : Args) (s s' : Resolver) → finish word rest s ≡ finished [] s' → ⊥
unfolding finish
finish-ne-nil word rest s s' h = ground arith

module _ (aliases : AliasTable) where
  -- The word ends the resolving, or it is an alias.
  pub data Visit (f : Args → Resolver → Outcome) (word : String) (rest : Args) (s : Resolver)
      : Type 0 where
    ends :
        (lookup word aliases ≡ none) ⊎ (is_escaped word ≡ true)
        → visit aliases f (word ∷ rest) s ≡ finish word rest s
        → Visit f word rest s
    repeats :
        (body : Args)
        → lookup word aliases ≡ some body
        → mem word s.stack ≡ true
        → visit aliases f (word ∷ rest) s ≡ infinite_recursion
        → Visit f word rest s
    expands :
        (body : Args)
        → lookup word aliases ≡ some body
        → mem word s.stack ≡ false
        → visit aliases f (word ∷ rest) s
          ≡ after_alias f rest (f body (record s { stack = word ∷ s.stack }))
        → Visit f word rest s

  pub Visit-cases :
      (f : Args → Resolver → Outcome) (word : String) (rest : Args) (s : Resolver)
      → Visit f word rest s
  unfolding visit
  Visit-cases f word rest s = elim (Option-cases (lookup word aliases)) [
    | inl absent ↦ ends (inl absent) (rw (absent, visit))
    | inr (body, found) ↦ elim (Bool-cases (is_escaped word)) [
      | inl escaped ↦ ends (inr escaped) (rw (found, visit) (rw escaped))
      | inr plain ↦ elim (Bool-cases (mem word s.stack)) [
        | inl again ↦ repeats body found again (rw (found, visit) (rw (plain, again)))
        | inr new ↦ expands body found new (rw (found, visit) (rw (plain, new)))
      ]
    ]
  ]

  visit-Pops : (f : Args → Resolver → Outcome) → Pops f → Pops (visit aliases f)
  unfolding visit pop
  visit-Pops f pops [] s s' h = ground arith
  visit-Pops f pops (word ∷ rest) s s' h = elim (Visit-cases f word rest s) [
    | ends _ e ↦ absurd (finish-ne-nil word rest s s' (sym e ∙ h))
    | repeats _ _ _ e ↦ cc
    | expands body _ _ e ↦
        after_alias-Pops f word rest s _ s' pops (λ s₁ p. pops body _ s₁ p) (sym e ∙ h)
  ]

  pub subresolve-Pops : (fuel : ℕ) → Pops (subresolve aliases fuel)
  unfolding subresolve store_prefix
  subresolve-Pops zero args s s' h = cc
  subresolve-Pops (suc fuel) args s s' h =
      visit-Pops (subresolve aliases fuel) (subresolve-Pops fuel) _ _ s' h
