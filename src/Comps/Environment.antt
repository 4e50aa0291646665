-- ===== src/Comps/Environment.antt =====
-- The operations of `Solver` of dnf/comps.py on environments.
use dnf.Base.{
  ℕ, String, Bool, true, false, ◌&&◌, Option, none, some, List, [], ◌∷◌, ◌++◌, map, mem, String_eq,
  if◌then◌else◌,
}
use dnf.Base.Dict.{Dict, insert, lookup, add}
use dnf.Comps.{
  mandatory, optional, TransactionBunch, empty_bunch, iadd, SwdbGroup, is_removable_pkg,
}
use dnf.Comps.Solver.{
  CompsEnv, SwdbEnvGroup, SwdbEnv, World, Persistors, Result, comps_error, key_error, bunch,
  group_install, group_remove, group_upgrade,
}

module _ (w : World) where
  -- What follows a step that is no exception; and `trans += step` with what follows.
  abbrev on_bunch :
      Result × Persistors
      → (TransactionBunch → Persistors → Result × Persistors)
      → Result × Persistors
  on_bunch (bunch b, p) rest = rest b p
  on_bunch (comps_error, p) rest = (comps_error, p)
  on_bunch (key_error, p) rest = (key_error, p)

  abbrev add_bunch :
      TransactionBunch
      → Result × Persistors
      → (TransactionBunch → Persistors → Result × Persistors)
      → Result × Persistors
  add_bunch trans step rest = on_bunch step (λ b p. rest (iadd trans b) p)

  abbrev add_group : SwdbEnvGroup → SwdbEnv → SwdbEnv
  add_group g env = record env { groups = env.groups ++ g ∷ [] }

  -- `swdb_env.addGroup` on the environment that the persistor already holds.
  pub note_group : String → SwdbEnvGroup → Persistors → Persistors
  note_group env_id g p = elim (lookup env_id p.envs_installed) [
    | none ↦ p
    | some env ↦ record p { envs_installed = insert env_id (add_group g env) p.envs_installed }
  ]

  abbrev mandatory_group : String → SwdbEnvGroup
  mandatory_group id = record { group_id = id; installed = true; kind = mandatory }

  abbrev optional_group : String → SwdbEnvGroup
  optional_group id = record { group_id = id; installed = false; kind = optional }

  pub note_optional :
      String → (exclude_groups : List String) → List String → Persistors → Persistors
  unfolding note_group
  note_optional env_id exclude_groups [] p = p
  note_optional env_id exclude_groups (id ∷ ids) p =
      note_optional env_id exclude_groups ids
        (if mem id exclude_groups then p else note_group env_id (optional_group id) p)

  -- The loop over the mandatory groups of `_environment_install`.
  pub install_mandatory :
      String
      → ℕ
      → (strict : Bool) → (exclude_groups : List String) → List String
      → TransactionBunch
      → Persistors
      → Result × Persistors
  unfolding group_install note_group iadd
  install_mandatory env_id pkg_types strict exclude_groups [] trans p = (bunch trans, p)
  install_mandatory env_id pkg_types strict exclude_groups (id ∷ ids) trans p =
      let skipped = install_mandatory env_id pkg_types strict exclude_groups ids trans p in
      if mem id exclude_groups
      then skipped
      else add_bunch trans (group_install w id pkg_types strict p) (λ t q.
        install_mandatory env_id pkg_types strict exclude_groups ids t
          (note_group env_id (mandatory_group id) q))

  unfoldable pub environment_install :
      String
      → ℕ
      → (strict : Bool) → (exclude_groups : List String) → Persistors
      → Result × Persistors
  unfolding install_mandatory note_optional
  environment_install env_id pkg_types strict exclude_groups p = elim (w.env_by_id env_id) [
    | none ↦ (comps_error, p)
    | some env ↦
        let q = record p {
          envs_installed =
              insert env_id (record { env_id = env_id; pkg_types = pkg_types; groups = [] })
                p.envs_installed;
        } in
        on_bunch
          (install_mandatory env_id pkg_types strict exclude_groups env.mandatory_groups empty_bunch
            q)
          (λ t r. (bunch t, note_optional env_id exclude_groups env.optional_groups r))
  ]

  -- An environment, for the code that reads environments and their groups as groups and their packages.
  abbrev as_group : SwdbEnv → SwdbGroup
  as_group env = record {
    group_id = env.env_id;
    pkg_types = env.pkg_types;
    packages =
        map (λ g. record { name = g.group_id; installed = g.installed; kind = g.kind }) env.groups;
  }

  abbrev as_groups : Dict String SwdbEnv → Dict String SwdbGroup
  as_groups envs = map (λ (env_id, env). (env_id, as_group env)) envs

  -- `is_removable_group`: the loops are those of `is_removable_pkg`, over environments.
  pub is_removable_group : Persistors → String → Option Bool
  unfolding is_removable_pkg
  is_removable_group p group_id = elim (w.swdb_group group_id) [
    | none ↦ some false
    | some group ↦
        is_removable_pkg true (w.group_envs group_id) (as_groups p.envs_removed)
          (as_groups p.envs_installed) group_id
  ]

  pub remove_groups : List String → TransactionBunch → Persistors → Result × Persistors
  unfolding group_remove is_removable_group iadd
  remove_groups [] trans p = (bunch trans, p)
  remove_groups (id ∷ ids) trans p =
      let skipped = remove_groups ids trans p in
      elim (is_removable_group p id) [
        | none ↦ (key_error, p)
        | some removable ↦
            if removable
            then add_bunch trans (group_remove w id p) (λ t q. remove_groups ids t q)
            else skipped
      ]

  abbrev add_all : List String → List String → List String
  add_all ids [] = ids
  add_all ids (id ∷ others) = add_all (add id ids) others

  -- The identifiers of the groups, each once. The source goes over a set of them.
  abbrev group_ids : SwdbEnv → List String
  group_ids env = add_all [] (map (λ g. g.group_id) env.groups)

  unfoldable pub environment_remove : String → Persistors → Result × Persistors
  unfolding remove_groups
  environment_remove env_id p = elim (w.swdb_env env_id) [
    | none ↦ (comps_error, p)
    | some env ↦
        remove_groups (group_ids env) empty_bunch
          (record p { envs_removed = insert env.env_id env p.envs_removed })
  ]

  abbrev is_installed : String → Bool
  is_installed id = elim (w.swdb_group id) [ none ↦ false | some group ↦ true ]

  -- The two loops of `_environment_upgrade`, with the groups that the new environment gets.
  pub upgrade_mandatory :
      List String → ℕ → List String → TransactionBunch → Persistors → Result × Persistors
  unfolding group_upgrade group_install iadd
  upgrade_mandatory old_set pkg_types [] trans p = (bunch trans, p)
  upgrade_mandatory old_set pkg_types (id ∷ ids) trans p =
      let skipped = upgrade_mandatory old_set pkg_types ids trans p in
      if mem id old_set
      then if is_installed id
        then add_bunch trans (group_upgrade w id p)
            (λ t q. upgrade_mandatory old_set pkg_types ids t q)
        else skipped
      else add_bunch trans (group_install w id pkg_types true p)
          (λ t q. upgrade_mandatory old_set pkg_types ids t q)

  pub upgrade_optional :
      List String → List String → TransactionBunch → Persistors → Result × Persistors
  unfolding group_upgrade iadd
  upgrade_optional old_set [] trans p = (bunch trans, p)
  upgrade_optional old_set (id ∷ ids) trans p =
      let skipped = upgrade_optional old_set ids trans p in
      if mem id old_set && is_installed id
      then add_bunch trans (group_upgrade w id p) (λ t q. upgrade_optional old_set ids t q)
      else skipped

  -- Every group of the environment is added to the new record, upgraded or not.
  abbrev upgraded_env : CompsEnv → ℕ → SwdbEnv
  upgraded_env env pkg_types = record {
    env_id = env.id;
    pkg_types = pkg_types;
    groups =
        map (λ id. mandatory_group id) env.mandatory_groups
        ++ map (λ id. optional_group id) env.optional_groups;
  }

  unfoldable pub environment_upgrade : String → Persistors → Result × Persistors
  unfolding upgrade_mandatory upgrade_optional
  environment_upgrade env_id p = elim (w.swdb_env env_id) [
    | none ↦ (comps_error, p)
    | some old ↦ elim (w.env_by_id env_id) [
      | none ↦ (comps_error, p)
      | some env ↦
          on_bunch
            (upgrade_mandatory (group_ids old) old.pkg_types env.mandatory_groups empty_bunch p)
            (λ t q. on_bunch (upgrade_optional (group_ids old) env.optional_groups t q) (λ u r. (
              bunch u,
              record r {
                envs_upgraded = insert env.id (upgraded_env env old.pkg_types) r.envs_upgraded;
              },
            )))
    ]
  ]
