-- ===== src/Marks/GroupSpecs.antt =====
-- `CompsQuery.get` of dnf/comps.py, and the operations of dnf/base.py on groups and environments.
pub mod Grows
use dnf.Base.{
  ℕ, ◌+◌, String, Bool, true, false, not, ◌&&◌, ◌||◌, Option, none, some, List, [], ◌∷◌, ◌++◌, mem,
  length, ◌==◌, ℕ_eq, String_eq, if◌then◌else◌,
}
use dnf.Base.Dict.{add}
use dnf.Comps.{TransactionBunch, iadd}
use dnf.Comps.Solver.{
  World, Persistors, Result, comps_error, key_error, bunch, group_install, group_remove,
  group_upgrade,
}
use dnf.Comps.Environment.{environment_install, environment_remove, environment_upgrade}

abbrev known : List (Option String) → List String
known [] = []
known (none ∷ items) = known items
known (some id ∷ items) = id ∷ known items

-- `result.add`, of each.
abbrev add_ids : List String → List String → List String
add_ids [] result = result
add_ids (id ∷ ids) result = add_ids ids (add id result)

-- `_get_groups` and `_get_envs`: the identifiers of the comps data, and those of the items of the
-- history; `none` for an item of another sort.
unfoldable pub get_ids :
    (is_available is_installed : Bool) → List String → List (Option String) → List String
get_ids is_available is_installed available installed =
    add_ids (if is_installed then known installed else []) (if is_available then available else [])

-- What a query finds: the identifiers, those of the comps data and those of the history.
pub record Found : Type 0 where
  pub environments : List String
  pub groups : List String

abbrev nothing : Found → Bool
nothing found = elim found.environments [
  | [] ↦ elim found.groups [ [] ↦ true | id ∷ ids ↦ false ]
  | id ∷ ids ↦ false
]

-- `CompsQuery.get` of one pattern; `none` is CompsError.
unfoldable pub get : (search : String → Found) → String → Option Found
get search pattern = if nothing (search pattern) then none else some (search pattern)

abbrev extend : Found → Found → Found
extend a b = record {
  environments = a.environments ++ b.environments;
  groups = a.groups ++ b.groups;
}

-- `CompsQuery.get` of several.
unfoldable pub get_all : (search : String → Found) → List String → Found → Option Found
unfolding get
get_all search [] res = some res
get_all search (pattern ∷ patterns) res = elim (get search pattern) [
  | none ↦ none
  | some found ↦ get_all search patterns (extend res found)
]

-- `_comps_trans`, and the persistors of the history.
pub record State : Type 0 where
  pub comps_trans : TransactionBunch
  pub persistors : Persistors

-- A count of packages, or the exception: CompsError, KeyError, or Error.
pub data Ended : Type 0 where
  counted : ℕ → Ended
  comps_failed key_failed error : Ended

-- `len(trans)`
abbrev pub bunch_length : TransactionBunch → ℕ
bunch_length b = length b.install + length b.install_opt + length b.upgrade + length b.remove

-- What follows a call that raises nothing: `cnt += call` first.
abbrev pub then_add : State × Ended → ℕ → (State → ℕ → State × Ended) → State × Ended
then_add (s, counted n) cnt rest = rest s (cnt + n)
then_add (s, comps_failed) cnt rest = (s, comps_failed)
then_add (s, key_failed) cnt rest = (s, key_failed)
then_add (s, error) cnt rest = (s, error)

-- `_add_comps_trans`, of what the solver gives.
unfoldable pub add_comps_trans : Result × Persistors → TransactionBunch → State × Ended
add_comps_trans (bunch b, p) trans =
    (record { comps_trans = iadd trans b; persistors = p }, counted (bunch_length b))
add_comps_trans (comps_error, p) trans =
    (record { comps_trans = trans; persistors = p }, comps_failed)
add_comps_trans (key_error, p) trans = (record { comps_trans = trans; persistors = p }, key_failed)

-- `if not trans: return 0`, and `_add_comps_trans` otherwise.
unfoldable pub add_unless_empty : Result × Persistors → TransactionBunch → State × Ended
unfolding add_comps_trans
add_unless_empty (bunch b, p) trans =
    if bunch_length b == 0
    then (record { comps_trans = trans; persistors = p }, counted 0)
    else add_comps_trans (bunch b, p) trans
add_unless_empty (comps_error, p) trans = add_comps_trans (comps_error, p) trans
add_unless_empty (key_error, p) trans = add_comps_trans (key_error, p) trans

module _ (w : World) where
  abbrev pub install_group : String → ℕ → Bool → State → State × Ended
  install_group id types strict s =
      add_unless_empty (group_install w id types strict s.persistors) s.comps_trans

  abbrev pub install_env : String → ℕ → Bool → List String → State → State × Ended
  install_env id types strict exclude_groups s =
      add_unless_empty (environment_install w id types strict exclude_groups s.persistors)
        s.comps_trans

  abbrev pub remove_group : String → State → State × Ended
  remove_group id s = add_comps_trans (group_remove w id s.persistors) s.comps_trans

  abbrev pub remove_env : String → State → State × Ended
  remove_env id s = add_comps_trans (environment_remove w id s.persistors) s.comps_trans

  abbrev pub upgrade_group : String → State → State × Ended
  upgrade_group id s = add_comps_trans (group_upgrade w id s.persistors) s.comps_trans

  abbrev pub upgrade_env : String → State → State × Ended
  upgrade_env id s = add_comps_trans (environment_upgrade w id s.persistors) s.comps_trans

  -- `for id in ids: cnt += call(id)`
  unfoldable pub count_loop :
      (String → State → State × Ended) → List String → State → ℕ → State × Ended
  unfolding add_comps_trans
  count_loop call [] s cnt = (s, counted cnt)
  count_loop call (id ∷ ids) s cnt = then_add (call id s) cnt (λ t n. count_loop call ids t n)

  -- The groups that are not excluded.
  abbrev pub install_group_unless : ℕ → Bool → List String → String → State → State × Ended
  install_group_unless types strict exclude_groups id s =
      if mem id exclude_groups then (s, counted 0) else install_group id types strict s

  -- The loop over the patterns; `done` is in the end whether all were found.
  unfoldable pub install_loop :
      (search : String → Found)
      → ℕ
      → Bool
      → List String
      → List String
      → State
      → ℕ
      → Bool
      → State × Ended
  unfolding count_loop get
  install_loop search types strict exclude_groups [] s cnt done =
      if not done && strict then (s, error) else (s, counted cnt)
  install_loop search types strict exclude_groups (pattern ∷ patterns) s cnt done =
      elim (get search pattern) [
        | none ↦ install_loop search types strict exclude_groups patterns s cnt false
        | some res ↦
            then_add
              (count_loop (install_group_unless types strict exclude_groups) res.groups s cnt) 0
              (λ t n.
                then_add
                  (count_loop (λ id. install_env id types strict exclude_groups) res.environments t
                    n)
                  0 (λ u m. install_loop search types strict exclude_groups patterns u m done))
      ]

  unfoldable pub env_group_install :
      (search : String → Found) → List String → ℕ → Bool → List String → State → State × Ended
  unfolding install_loop
  env_group_install search patterns types strict exclude_groups s =
      install_loop search types strict exclude_groups patterns s 0 true

  unfoldable pub env_group_remove : (search : String → Found) → List String → State → State × Ended
  unfolding count_loop get_all
  env_group_remove search patterns s =
      elim (get_all search patterns (record { environments = []; groups = [] })) [
        | none ↦ (s, error)
        | some res ↦
            then_add (count_loop remove_env res.environments s 0) 0
              (λ t n. count_loop remove_group res.groups t n)
      ]

  -- `try: upgrade(id); group_upgraded = True`, with what is caught.
  abbrev upgraded : State × Ended → Bool → (State → Bool → State × Ended) → State × Ended
  upgraded (s, counted n) group_upgraded rest = rest s true
  upgraded (s, comps_failed) group_upgraded rest = rest s group_upgraded
  upgraded (s, key_failed) group_upgraded rest = (s, key_failed)
  upgraded (s, error) group_upgraded rest = (s, error)

  unfoldable pub upgrade_loop :
      (String → State → State × Ended)
      → List String
      → State
      → Bool
      → (State → Bool → State × Ended)
      → State × Ended
  unfolding add_comps_trans
  upgrade_loop call [] s group_upgraded rest = rest s group_upgraded
  upgrade_loop call (id ∷ ids) s group_upgraded rest =
      upgraded (call id s) group_upgraded (λ t u. upgrade_loop call ids t u rest)

  -- The loop over the patterns, which returns nothing; CliError where no group was upgraded.
  unfoldable pub upgrade_patterns :
      (search : String → Found) → List String → State → Bool → State × Ended
  unfolding upgrade_loop get
  upgrade_patterns search [] s group_upgraded =
      if group_upgraded then (s, counted 0) else (s, error)
  upgrade_patterns search (pattern ∷ patterns) s group_upgraded = elim (get search pattern) [
    | none ↦ upgrade_patterns search patterns s group_upgraded
    | some res ↦ upgrade_loop upgrade_env res.environments s group_upgraded (λ t u.
        upgrade_loop upgrade_group res.groups t u (λ v x. upgrade_patterns search patterns v x))
  ]

  unfoldable pub env_group_upgrade : (search : String → Found) → List String → State → State × Ended
  unfolding upgrade_patterns
  env_group_upgrade search patterns s = upgrade_patterns search patterns s false
