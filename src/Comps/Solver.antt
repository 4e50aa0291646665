-- ===== src/Comps/Solver.antt =====
-- `Solver` of dnf/comps.py, over the persistors of dnf/db/group.py.
use dnf.Base.{
  ℕ, String, Bool, true, false, not, Option, none, some, List, [], ◌∷◌, ◌++◌, filter, map, mem,
  String_eq, if◌then◌else◌,
}
use dnf.Base.Dict.{Dict, insert}
use dnf.Comps.{
  Kind, conditional, default, mandatory, optional, CompsPackage, Entry, raw_package, trans_pkg,
  update_set, TransactionBunch, SwdbPackage, SwdbGroup, is_removable_pkg,
}

-- A group of the comps data: its packages in order.
pub record CompsGroup : Type 0 where
  pub id : String
  pub packages : List CompsPackage

pub record CompsEnv : Type 0 where
  pub id : String
  pub mandatory_groups : List String
  pub optional_groups : List String

pub record SwdbEnvGroup : Type 0 where
  pub group_id : String
  pub installed : Bool
  pub kind : Kind

pub record SwdbEnv : Type 0 where
  pub env_id : String
  pub pkg_types : ℕ
  pub groups : List SwdbEnvGroup

-- What the history database and the comps data say, and the bits of the package types.
pub record World : Type 0 where
  pub group_by_id : String → Option CompsGroup
  pub env_by_id : String → Option CompsEnv
  pub swdb_group : String → Option SwdbGroup
  pub swdb_env : String → Option SwdbEnv
  pub has_group_reason : String → Bool
  pub package_groups : String → List String
  pub group_envs : String → List String
  pub selects : ℕ → Kind → Bool
  pub comps_optional : Kind → ℕ
  pub swdb_optional : Kind → ℕ

-- The dictionaries of the two persistors.
pub record Persistors : Type 0 where
  pub groups_installed : Dict String SwdbGroup
  pub groups_removed : Dict String SwdbGroup
  pub groups_upgraded : Dict String SwdbGroup
  pub envs_installed : Dict String SwdbEnv
  pub envs_removed : Dict String SwdbEnv
  pub envs_upgraded : Dict String SwdbEnv

-- CompsError, KeyError, or a bunch.
pub data Result : Type 0 where
  comps_error key_error : Result
  bunch : TransactionBunch → Result

module _ (w : World) where
  -- `CompsTransPkg(item)`, of a name, a package of the database and one of the comps data.
  unfoldable pub trans_of_name : String → Entry
  trans_of_name name = trans_pkg name false 1 none

  unfoldable pub trans_of_swdb : SwdbPackage → Entry
  trans_of_swdb pkg = trans_pkg pkg.name false (w.swdb_optional pkg.kind) none

  unfoldable pub trans_of_comps : CompsPackage → Entry
  trans_of_comps pkg = trans_pkg pkg.name pkg.basearchonly (w.comps_optional pkg.kind) pkg.requires

  abbrev same_kind : Kind → Kind → Bool
  same_kind conditional conditional = true
  same_kind default default = true
  same_kind mandatory mandatory = true
  same_kind optional optional = true
  same_kind _ _ = false

  abbrev packages_of_type : CompsGroup → Kind → List CompsPackage
  packages_of_type group kind = filter (λ p. same_kind p.kind kind) group.packages

  -- One test of `_pkgs_of_type`, whose excluded names are none in every call.
  abbrev of_kind : CompsGroup → ℕ → Kind → List CompsPackage
  of_kind group pkg_types kind =
      if w.selects pkg_types kind then packages_of_type group kind else []

  unfoldable pub pkgs_of_type : CompsGroup → ℕ → List CompsPackage
  pkgs_of_type group pkg_types =
      of_kind group pkg_types mandatory
      ++ of_kind group pkg_types default
      ++ of_kind group pkg_types optional
      ++ of_kind group pkg_types conditional

  abbrev pub names : List CompsPackage → List String
  names pkgs = map (λ p. p.name) pkgs

  abbrev is_nil : List String → Bool
  is_nil [] = true
  is_nil (x ∷ xs) = false

  -- `history.group.new` and the packages that are added to it.
  unfoldable pub new_group : CompsGroup → ℕ → SwdbGroup
  new_group group pkg_types = record {
    group_id = group.id;
    pkg_types = pkg_types;
    packages =
        map
          (λ p. record {
            name = p.name;
            installed = not (is_nil (w.package_groups p.name));
            kind = p.kind;
          })
          group.packages;
  }

  unfoldable pub group_install : String → ℕ → (strict : Bool) → Persistors → Result × Persistors
  unfolding pkgs_of_type new_group
  group_install group_id pkg_types strict p = elim (w.group_by_id group_id) [
    | none ↦ (comps_error, p)
    | some group ↦
        let pkgs = update_set [] (map (λ q. raw_package q) (pkgs_of_type group pkg_types)) in
        (
          bunch (record {
            install = if strict then pkgs else [];
            install_opt = if strict then [] else pkgs;
            remove = [];
            upgrade = [];
          }),
          record p {
            groups_installed = insert group_id (new_group group pkg_types) p.groups_installed;
          },
        )
  ]

  -- `_removable_pkg`
  unfoldable pub removable_pkg : Persistors → String → Option Bool
  unfolding is_removable_pkg
  removable_pkg p pkg_name =
      is_removable_pkg (w.has_group_reason pkg_name) (w.package_groups pkg_name) p.groups_removed
        p.groups_installed pkg_name

  -- The packages that can be removed, as they are set; `none` is KeyError.
  unfoldable pub removable_pkgs : Persistors → List SwdbPackage → Option (List Entry)
  unfolding removable_pkg
  removable_pkgs p [] = some []
  removable_pkgs p (pkg ∷ packages) = elim (removable_pkg p pkg.name) [
    | none ↦ none
    | some removable ↦ elim (removable_pkgs p packages) [
      | none ↦ none
      | some entries ↦ some (if removable then trans_of_swdb pkg ∷ entries else entries)
    ]
  ]

  unfoldable pub group_remove : String → Persistors → Result × Persistors
  unfolding removable_pkgs
  group_remove group_id p = elim (w.swdb_group group_id) [
    | none ↦ (comps_error, p)
    | some group ↦
        let q = record p { groups_removed = insert group.group_id group p.groups_removed } in
        elim (removable_pkgs q group.packages) [
          | none ↦ (key_error, q)
          | some entries ↦ (
            bunch (record {
              install = [];
              install_opt = [];
              remove = update_set [] entries;
              upgrade = [];
            }),
            q,
          )
        ]
  ]

  -- The bunch of `_group_upgrade`, of the old names and the new packages.
  unfoldable pub upgrade_bunch : List String → List CompsPackage → TransactionBunch
  unfolding trans_of_comps trans_of_name
  upgrade_bunch old_set new_set = record {
    install =
        update_set []
          (map (λ q. trans_of_comps q) (filter (λ q. not (mem q.name old_set)) new_set));
    install_opt = [];
    remove =
        update_set []
          (map (λ n. trans_of_name n) (filter (λ n. not (mem n (names new_set))) old_set));
    upgrade =
        update_set [] (map (λ q. trans_of_comps q) (filter (λ q. mem q.name old_set) new_set));
  }

  unfoldable pub group_upgrade : String → Persistors → Result × Persistors
  unfolding pkgs_of_type new_group upgrade_bunch
  group_upgrade group_id p = elim (w.swdb_group group_id) [
    | none ↦ (comps_error, p)
    | some old ↦ elim (w.group_by_id group_id) [
      | none ↦ (comps_error, p)
      | some group ↦ (
        bunch (upgrade_bunch (map (λ q. q.name) old.packages) (pkgs_of_type group old.pkg_types)),
        record p {
          groups_upgraded = insert group_id (new_group group old.pkg_types) p.groups_upgraded;
        },
      )
    ]
  ]
