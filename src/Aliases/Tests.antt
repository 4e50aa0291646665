-- ===== src/Aliases/Tests.antt =====
-- Command lines that dnf/cli/aliases.py resolves, and the theorems about it at them.
use dnf.Base.{
  ℕ, ◌<◌, String, ◌≡◌, refl, ◌≢◌, true, false, some, [], ◌∷◌, arith, eq_iff, ◌==◌, String_eq,
  if◌then◌else◌, ◌⊎◌, inl, inr,
}
use dnf.Base.Dict.{lookup}
use dnf.Aliases.{
  Args, AliasTable, resolve_args, resolve, command_line, recursion_error, unfinished, subresolve,
  store_prefix, count_options, visit, finish, after_alias, is_word, is_escaped, strip_escape,
  to_resolved, pop,
}
use dnf.Aliases.Total.{fuel_for, resolve_args-ne_unfinished}
use dnf.Aliases.Rewriting.{IsResolution, resolve_args-IsResolution}
use dnf.Aliases.Ranked.{IsRanked, resolve_args-ne_recursion_error}

abbrev table : AliasTable
table =
    ("FORCE", "--skip-broken" ∷ "--disableexcludes=all" ∷ [])
    ∷ ("inst", "install" ∷ [])
    ∷ ("force-inst", "FORCE" ∷ "inst" ∷ [])
    ∷ ("upgrade", "\\upgrade" ∷ "--obsoletes" ∷ [])
    ∷ []

program : Unit {0}
unfolding resolve_args subresolve store_prefix count_options visit finish after_alias is_word
    is_escaped strip_escape to_resolved pop lookup resolve
program = tt

resolve_args-force :
    resolve_args 20 table ("force-inst" ∷ "-y" ∷ "vim" ∷ [])
    ≡ command_line ("--skip-broken" ∷ "--disableexcludes=all" ∷ "install" ∷ "-y" ∷ "vim" ∷ [])
unfolding program
resolve_args-force = refl

resolve_args-loop :
    resolve_args 20 (("a", "b" ∷ []) ∷ ("b", "a" ∷ []) ∷ []) ("a" ∷ []) ≡ recursion_error
unfolding program
resolve_args-loop = refl

-- Off, and on an error, the arguments are used as they are.
resolve-off :
    (resolve 20 false table ("inst" ∷ []) ≡ some ("inst" ∷ []))
    × (resolve 20 true (("a", "a" ∷ []) ∷ []) ("a" ∷ []) ≡ some ("a" ∷ []))
unfolding program
resolve-off = (refl, refl)

resolve_args-ne_unfinished_example : resolve_args 60 table ("force-inst" ∷ "vim" ∷ []) ≢ unfinished
unfolding fuel_for
resolve_args-ne_unfinished_example =
    resolve_args-ne_unfinished 60 table ("force-inst" ∷ "vim" ∷ []) (omega arith)

resolve_args-IsResolution_example :
    IsResolution table
      ("force-inst" ∷ "-y" ∷ "vim" ∷ [])
      ("--skip-broken" ∷ "--disableexcludes=all" ∷ "install" ∷ "-y" ∷ "vim" ∷ [])
resolve_args-IsResolution_example = resolve_args-IsResolution 20 table _ _ resolve_args-force

abbrev short_table : AliasTable
short_table = ("lsi", "ls" ∷ "installed" ∷ []) ∷ ("ls", "list" ∷ []) ∷ []

abbrev rank : String → ℕ
rank word = if word == "lsi" then 2 else if word == "ls" then 1 else 0

abbrev Lower : String → String → Type 0
Lower name word = (b : Args) → lookup word short_table ≡ some b → rank word < rank name

short_table-lookup :
    (name : String) (body : Args)
    → lookup name short_table ≡ some body
    → ((name ≡ "lsi") × (body ≡ "ls" ∷ "installed" ∷ [])) ⊎ (body ≡ "list" ∷ [])
unfolding lookup
short_table-lookup name body h = ground (arith, eq_iff name "lsi")

short_table-IsRanked : IsRanked rank short_table
unfolding lookup
short_table-IsRanked name body h = elim (short_table-lookup name body h) [
  | inl (named, is_body) ↦ rw named (rw is_body ((λ b e. omega arith), ((λ b e. cc), tt)))
  | inr is_body ↦ rw is_body ((λ b e. cc), tt)
]

resolve_args-ne_recursion_error_example : resolve_args 20 short_table ("lsi" ∷ []) ≢ recursion_error
resolve_args-ne_recursion_error_example =
    resolve_args-ne_recursion_error 20 rank short_table ("lsi" ∷ []) short_table-IsRanked
