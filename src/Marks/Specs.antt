-- ===== src/Marks/Specs.antt =====
-- `Base.install_specs` of dnf/base.py, with what it calls.
pub mod Reports
mod Tests
use Prim.Native.Char.{Char, code}
use dnf.Base.{
  ℕ, String, Bool, true, false, not, ◌&&◌, ◌||◌, Option, none, some, List, [], ◌∷◌, ◌++◌, map,
  filter, any, mem, ◌==◌, ℕ_eq, String_eq, if◌then◌else◌,
}
use dnf.Base.Dict.{add}
use dnf.Util.Specs.{Specs, parse_specs}
use dnf.Comps.Solver.{World, CompsEnv}
use dnf.Marks.{Package, Query, union, installed, run, Ask, goal_erase, Setting}
use dnf.Marks.Packages.{Marking, marked, failed, Outcome, package_remove}
use dnf.Marks.Subjects.{install, remove}
use dnf.Marks.GroupSpecs.{
  Found, get, State, Ended, counted, comps_failed, key_failed, error, env_group_install,
  env_group_remove,
}

-- What MarkingErrors holds.
pub record MarkingErrors : Type 0 where
  pub no_match_group_specs : List String
  pub error_group_specs : List String
  pub no_match_pkg_specs : List String
  pub module_depsolv_errors : List String

-- What `ModuleBase.install` raises, or empty lists.
pub record Modules : Type 0 where
  pub no_match_specs : List String
  pub error_specs : List String
  pub depsolv_errors : List String

-- `char in text` and `text.split(char)`, of a character that is given by its code.
abbrev pub has_code : ℕ → String → Bool
has_code n String.[] = false
has_code n (String.◌∷◌ c s) = (code c == n) || has_code n s

abbrev on_first : Char → List String → List String
on_first c [] = []
on_first c (word ∷ words) = String.◌∷◌ c word ∷ words

abbrev pub split : ℕ → String → List String
split n String.[] = "" ∷ []
split n (String.◌∷◌ c s) = if code c == n then "" ∷ split n s else on_first c (split n s)

abbrev first_word : List String → String
first_word [] = ""
first_word (word ∷ words) = word

abbrev second_word : List String → String
second_word [] = ""
second_word (word ∷ words) = first_word words

-- The configuration, the comps data and the queries for groups. `setting_without`: the sack after a
-- query is excluded; `types_of`: libdnf's `listToCompsPackageType`; `install_modules`: what
-- `ModuleBase.install` raises; `scheme`: of `urlparse`.
pub record Request : Type 0 where
  pub world : World
  pub setting_without : Query → Setting
  pub search_available : String → Found
  pub search_all : String → Found
  pub search_installed : String → Found
  pub group_package_types : List String
  pub types_of : List String → ℕ
  pub with_modules : Bool
  pub install_modules : List String → (strict : Bool) → Modules
  pub glob_match : String → String → Bool
  pub scheme : String → String

-- How `install_specs` ends: what is asked, the state, whether KeyError is raised, and what
-- MarkingErrors would hold; it is raised where one of its lists is not empty.
pub record Installed : Type 0 where
  pub asks : List Ask
  pub state : State
  pub is_key_error : Bool
  pub errors : MarkingErrors

module _ (q : Request) where
  -- `_exclude_package_specs`: what the sack excludes.
  unfoldable pub exclude_package_specs : (is_glob : String → Bool) → List String → Query
  exclude_package_specs is_glob pkg_specs =
      let glob_excludes = filter is_glob pkg_specs in
      let excludes = filter (λ exclude. not (mem exclude glob_excludes)) pkg_specs in
      union (λ p. mem p.name excludes) (λ p. any (λ glob. q.glob_match glob p.name) glob_excludes)

  abbrev add_all : List String → List String → List String
  add_all [] groups = groups
  add_all (id ∷ ids) groups = add_all ids (add id groups)

  -- `environment.groups_iter()`
  abbrev env_groups : String → List String
  env_groups environment_id = elim (q.world.env_by_id environment_id) [
    | none ↦ []
    | some env ↦ env.mandatory_groups ++ env.optional_groups
  ]

  abbrev add_env_groups : List String → List String → List String
  add_env_groups [] groups = groups
  add_env_groups (id ∷ ids) groups = add_env_groups ids (add_all (env_groups id) groups)

  -- `_expand_groups`
  unfoldable pub expand_groups : List String → List String → List String
  expand_groups [] groups = groups
  expand_groups (pattern ∷ group_specs) groups = elim (get q.search_all pattern) [
    | none ↦ expand_groups group_specs groups
    | some res ↦
        expand_groups group_specs
          (add_env_groups res.environments (add_all res.environments (add_all res.groups groups)))
  ]

  -- The group and the types of a spec such as `@tools/default,optional`: '/' and ','.
  abbrev pub group_name : String → String
  group_name group_spec =
      if has_code 47 group_spec then first_word (split 47 group_spec) else group_spec

  abbrev pub group_types : String → List String
  group_types group_spec =
      if has_code 47 group_spec
      then split 44 (second_word (split 47 group_spec))
      else q.group_package_types

  -- The state, the skipped specs, and whether KeyError is raised.
  abbrev pub Skipping : Type 0
  Skipping = State × List String × Bool

  abbrev pub on_group :
      State × Ended → String → List String → (State → List String → Skipping) → Skipping
  on_group (s, counted n) name skipped rest = rest s skipped
  on_group (s, comps_failed) name skipped rest = rest s (skipped ++ String.◌∷◌ "@" name ∷ [])
  on_group (s, error) name skipped rest = rest s (skipped ++ String.◌∷◌ "@" name ∷ [])
  on_group (s, key_failed) name skipped rest = (s, skipped, true)

  -- `_install_groups`
  unfoldable pub install_groups :
      (excluded : List String) → (strict : Bool) → List String → State → List String → Skipping
  unfolding env_group_install
  install_groups excluded strict [] s skipped = (s, skipped, false)
  install_groups excluded strict (group_spec ∷ group_specs) s skipped =
      on_group
        (env_group_install q.world q.search_available (group_name group_spec ∷ [])
          (q.types_of (group_types group_spec)) strict excluded s)
        (group_name group_spec) skipped (λ t l. install_groups excluded strict group_specs t l)

  abbrev pub on_marking : Outcome → String → List String → List String
  on_marking (marked n) spec no_match = no_match
  on_marking (failed f) spec no_match = spec ∷ no_match

  -- The loop over the package specs: what is asked, and the specs that are not matched.
  unfoldable pub install_pkgs :
      Setting → Option String → (strict : Bool) → List String → List Ask × List String
  unfolding install
  install_pkgs w reponame strict [] = ([], [])
  install_pkgs w reponame strict (spec ∷ specs) =
      let (asks, outcome) = install w spec reponame strict in
      let (more, no_match) = install_pkgs w reponame strict specs in
      (asks ++ more, on_marking outcome spec no_match)

  abbrev no_specs : List String → Bool
  no_specs [] = true
  no_specs (spec ∷ specs) = false

  abbrev modules_of : List String → Bool → Modules
  modules_of grp_specs strict =
      if q.with_modules && not (no_specs grp_specs)
      then q.install_modules grp_specs strict
      else record { no_match_specs = grp_specs; error_specs = []; depsolv_errors = [] }

  unfoldable pub install_specs :
      (specs exclude : List String)
      → (reponame : Option String) → (strict : Bool) → State
      → Installed
  unfolding exclude_package_specs install_pkgs install_groups expand_groups parse_specs
  install_specs specs exclude reponame strict s =
      let wanted = parse_specs q.scheme specs in
      let unwanted = parse_specs q.scheme exclude in
      let before = q.setting_without (λ p. false) in
      let w = q.setting_without (exclude_package_specs before.is_glob_pattern unwanted.pkg_specs) in
      let pkgs = install_pkgs w reponame strict wanted.pkg_specs in
      let modules = modules_of wanted.grp_specs strict in
      let (t, skipped, is_key_error) =
        install_groups (expand_groups unwanted.grp_specs []) strict modules.no_match_specs s [] in
      record {
        asks = pkgs.0;
        state = t;
        is_key_error = is_key_error;
        errors = record {
          no_match_group_specs = skipped;
          error_group_specs = map (λ spec. String.◌∷◌ "@" spec) modules.error_specs;
          no_match_pkg_specs = pkgs.1;
          module_depsolv_errors = modules.depsolv_errors;
        };
      }
