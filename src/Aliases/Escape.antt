-- ===== src/Aliases/Escape.antt =====
-- How a '\' in front of a word ends the resolving (dnf/cli/aliases.py).
use dnf.Base.{
  ℕ, suc, String, ◌≡◌, refl, true, false, some, [], ◌∷◌, ◌++◌, mem, String_eq, Option-cases, inl,
  inr, append-nil,
}
use dnf.Base.Dict.{lookup}
use dnf.Aliases.{
  Args, AliasTable, Resolver, Outcome, finish, start, after_alias, visit, subresolve, store_prefix,
  count_options, is_word, is_escaped, strip_escape, resolve_args, to_resolved, command_line,
}

module _ (aliases : AliasTable) (f : Args → Resolver → Outcome) (word : String) (rest : Args) where
  visit-escaped :
      (s : Resolver) → is_escaped word ≡ true → visit aliases f (word ∷ rest) s ≡ finish word rest s
  unfolding visit
  visit-escaped s escaped = elim (Option-cases (lookup word aliases)) [
    | inl absent ↦ rw (absent, visit)
    | inr (body, found) ↦ rw (found, visit) (rw escaped)
  ]

  visit-alias :
      (body : Args) (s : Resolver)
      → lookup word aliases ≡ some body
      → is_escaped word ≡ false
      → mem word s.stack ≡ false
      → visit aliases f (word ∷ rest) s
        ≡ after_alias f rest (f body (record s { stack = word ∷ s.stack }))
  unfolding visit
  visit-alias body s found plain new = rw (found, visit) (rw (plain, new))

-- A word in front keeps the options where they are.
subresolve-word :
    (aliases : AliasTable) (fuel : ℕ) (word : String) (rest : Args) (s : Resolver)
    → is_word word ≡ true
    → subresolve aliases (suc fuel) (word ∷ rest) s
      ≡ visit aliases (subresolve aliases fuel) (word ∷ rest) s
unfolding subresolve store_prefix count_options
subresolve-word aliases fuel word rest s h = rw h (rw append-nil)

-- An alias whose text begins with an escaped word, such as `upgrade=\upgrade --obsoletes`, is not
-- resolved further: it gives its words without the '\', then the rest of the command line.
pub resolve_args-escaped_alias :
    (fuel : ℕ) (aliases : AliasTable) (name word : String) (words rest : Args)
    → is_word name ≡ true
    → is_escaped name ≡ false
    → lookup name aliases ≡ some (word ∷ words)
    → is_word word ≡ true
    → is_escaped word ≡ true
    → resolve_args (suc (suc fuel)) aliases (name ∷ rest)
      ≡ command_line (strip_escape word ∷ words ++ rest)
unfolding resolve_args to_resolved finish after_alias
resolve_args-escaped_alias fuel aliases name word words rest hn en found hw ew =
    rw (subresolve-word aliases (suc fuel) name rest start hn) (
      rw
        (visit-alias aliases (subresolve aliases (suc fuel)) name rest (word ∷ words) start found en
          refl)
        (rw (subresolve-word aliases fuel word words (record start { stack = name ∷ [] }) hw) (
          rw (
            visit-escaped aliases (subresolve aliases fuel) word words
              (record start { stack = name ∷ [] }) ew))))

-- A word that the user escapes on the command line ends the resolving too, but it keeps its '\':
-- with the stack empty the lines that strip it are not reached.
resolve_args-escaped_word :
    (fuel : ℕ) (aliases : AliasTable) (word : String) (rest : Args)
    → is_word word ≡ true
    → is_escaped word ≡ true
    → resolve_args (suc fuel) aliases (word ∷ rest) ≡ command_line (word ∷ rest)
unfolding resolve_args to_resolved finish
resolve_args-escaped_word fuel aliases word rest hw ew =
    rw (subresolve-word aliases fuel word rest start hw)
      (rw (visit-escaped aliases (subresolve aliases fuel) word rest start ew))
