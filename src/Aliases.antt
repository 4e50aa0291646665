-- ===== src/Aliases.antt =====
-- dnf/cli/aliases.py: how a command line is resolved by the aliases.
mod Stack
mod Total
mod Rewriting
mod Ranked
mod Escape
mod Tests
use Prim.Native.Char.{code}
use Prim.Native.String
use dnf.Base.{
  ℕ, zero, suc, ◌+◌, String, Bool, true, false, not, Option, none, some, List, [], ◌∷◌, ◌++◌, take,
  drop, mem, ◌==◌, ℕ_eq, String_eq, if◌then◌else◌,
}
use dnf.Base.Dict.{Dict, lookup}

abbrev pub Args : Type 0
Args = List String

-- `self.aliases`: an alias's name and the words that stand for it.
abbrev pub AliasTable : Type 0
AliasTable = Dict String Args

-- What the two nested functions of `_resolve` share: `stack`, its top first, and
-- `self.prefix_options`.
pub record Resolver : Type 0 where
  pub stack : List String
  pub prefix_options : Args

-- `arg and arg[0] != '-'`
unfoldable pub is_word : String → Bool
is_word String.[] = false
is_word (String.◌∷◌ c s) = not (code c == b'-')

-- The loop that computes `num`.
pub count_options : Args → ℕ
count_options [] = 0
count_options (arg ∷ args) = if is_word arg then 0 else suc (count_options args)

-- The options go to the prefix, the other arguments are returned.
pub store_prefix : Args → Resolver → Args × Resolver
unfolding count_options
store_prefix args s =
    let num = count_options args in
    (drop num args, record s { prefix_options = s.prefix_options ++ take num args })

-- `word.startswith('\\')`
unfoldable pub is_escaped : String → Bool
is_escaped String.[] = false
is_escaped (String.◌∷◌ c s) = code c == 92

-- `if word.startswith('\\'): word = word[1:]`
unfoldable pub strip_escape : String → String
strip_escape String.[] = String.[]
strip_escape (String.◌∷◌ c s) = if code c == 92 then s else String.◌∷◌ c s

pub data Outcome : Type 0 where
  finished : Args → Resolver → Outcome
  infinite_recursion : Outcome
  out_of_fuel : Outcome

-- `stack.pop()` for an empty suffix: `suffix[0]` raises IndexError after it, which is caught too.
unfoldable pub pop : List String → List String
pop [] = []
pop (top ∷ below) = below

-- The `try` block for a suffix with a first word. With an empty stack `stack.pop()` raises
-- IndexError, and the lines that strip the '\' are not reached.
pub finish : String → Args → Resolver → Outcome
finish word rest s = elim s.stack [
  | [] ↦ finished (word ∷ rest) s
  | top ∷ below ↦ finished (strip_escape word ∷ rest) (record s { stack = below })
]

-- What stands after the call on the alias's own words.
pub after_alias : (Args → Resolver → Outcome) → Args → Outcome → Outcome
after_alias subresolve rest (finished [] s) = subresolve rest s
after_alias subresolve rest (finished (word ∷ words) s) = finished (word ∷ words ++ rest) s
after_alias subresolve rest infinite_recursion = infinite_recursion
after_alias subresolve rest out_of_fuel = out_of_fuel

module _ (aliases : AliasTable) where
  -- `subresolve` behind `store_prefix`, with the recursive calls as a function.
  pub visit : (Args → Resolver → Outcome) → Args → Resolver → Outcome
  visit subresolve [] s = finished [] (record s { stack = pop s.stack })
  visit subresolve (word ∷ rest) s = elim (lookup word aliases) [
    | none ↦ finish word rest s
    | some body ↦
        if is_escaped word
        then finish word rest s
        else if mem word s.stack
        then infinite_recursion
        else after_alias subresolve rest (subresolve body (record s { stack = word ∷ s.stack }))
  ]

  -- The fuel bounds the depth of the calls.
  pub subresolve : ℕ → Args → Resolver → Outcome
  subresolve zero args s = out_of_fuel
  subresolve (suc fuel) args s =
      let (suffix, s') = store_prefix args s in visit (subresolve fuel) suffix s'

abbrev pub start : Resolver
start = record { stack = []; prefix_options = [] }

-- `_resolve` returns a command line, or raises `dnf.exceptions.Error`.
pub data Resolved : Type 0 where
  command_line : Args → Resolved
  recursion_error : Resolved
  unfinished : Resolved

pub to_resolved : Outcome → Resolved
to_resolved (finished suffix s) = command_line (s.prefix_options ++ suffix)
to_resolved infinite_recursion = recursion_error
to_resolved out_of_fuel = unfinished

pub resolve_args : ℕ → AliasTable → Args → Resolved
unfolding to_resolved
resolve_args fuel aliases args = to_resolved (subresolve aliases fuel args start)

-- `resolve`: the handler of the error logs it and goes on with the original arguments.
pub resolve : ℕ → Bool → AliasTable → Args → Option Args
resolve fuel false aliases args = some args
resolve fuel true aliases args = elim (resolve_args fuel aliases args) [
  | command_line result ↦ some result
  | recursion_error ↦ some args
  | unfinished ↦ none
]
