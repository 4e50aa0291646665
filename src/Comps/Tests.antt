-- ===== src/Comps/Tests.antt =====
-- Small groups, and what dnf/comps.py makes of them.
use dnf.Base.{
  ℕ, String, Bool, true, false, ◌||◌, none, some, [], ◌∷◌, All, map, mem, String_eq, ◌≡◌, ◌↔◌, refl,
  arith, ◌==◌, if◌then◌else◌,
}
use dnf.Base.Dict.{insert}
use dnf.Comps.{
  mandatory, CompsPackage, trans_pkg, entry_name, has, add_entry, update_set, difference,
  TransactionBunch, iadd, SwdbPackage, SwdbGroup, drop_group, drop_removed, add_installed,
  is_removable_pkg,
}
use dnf.Comps.Removable.{holds, is_removable_pkg-holds}
use dnf.Comps.Tracked.{IsTracked, AtMostOnce, is_removable_pkg-some}
use dnf.Comps.Solver.{
  CompsGroup, World, Persistors, bunch, group_install, group_remove, group_upgrade, removable_pkg,
  removable_pkgs, upgrade_bunch, pkgs_of_type, new_group, trans_of_name, trans_of_swdb,
  trans_of_comps, names,
}
use dnf.Comps.Upgrade.{group_upgrade-splits}

program : Unit {0}
unfolding add_entry update_set difference iadd drop_group drop_removed add_installed
    is_removable_pkg group_install group_remove group_upgrade removable_pkg removable_pkgs
    upgrade_bunch pkgs_of_type new_group trans_of_name trans_of_swdb trans_of_comps AtMostOnce
    IsTracked
program = tt

abbrev swdb_package : String → SwdbPackage
swdb_package name = record { name = name; installed = true; kind = mandatory }

abbrev tools : SwdbGroup
tools = record {
  group_id = "tools";
  pkg_types = 1;
  packages = swdb_package "make" ∷ swdb_package "sed" ∷ [];
}

abbrev comps_package : String → ℕ → CompsPackage
comps_package name handle = record {
  name = name;
  handle = handle;
  kind = mandatory;
  basearchonly = false;
  requires = none;
}

abbrev new_tools : CompsGroup
new_tools = record { id = "tools"; packages = comps_package "make" 1 ∷ comps_package "awk" 2 ∷ [] }

abbrev world : World
world = record {
  group_by_id = λ id. if id == "tools" then some new_tools else none;
  env_by_id = λ id. none;
  swdb_group = λ id. if id == "tools" then some tools else none;
  swdb_env = λ id. none;
  has_group_reason = λ name. true;
  package_groups = λ name. if name == "sed" then "tools" ∷ "text" ∷ [] else "tools" ∷ [];
  group_envs = λ id. [];
  selects = λ types kind. true;
  comps_optional = λ kind. 0;
  swdb_optional = λ kind. 0;
}

abbrev start : Persistors
start = record {
  groups_installed = [];
  groups_removed = [];
  groups_upgraded = [];
  envs_installed = [];
  envs_removed = [];
  envs_upgraded = [];
}

abbrev upgraded : TransactionBunch
upgraded = record {
  install = trans_pkg "awk" false 0 none ∷ [];
  install_opt = [];
  remove = trans_pkg "sed" false 1 none ∷ [];
  upgrade = trans_pkg "make" false 0 none ∷ [];
}

-- sed stays, since another group has it.
group_remove-tools :
    ((group_remove world "tools" start).0
      ≡ bunch (record {
        install = [];
        install_opt = [];
        remove = trans_pkg "make" false 0 none ∷ [];
        upgrade = [];
      }))
    × ((group_upgrade world "tools" start).0 ≡ bunch upgraded)
unfolding program insert
group_remove-tools = (refl, refl)

group_upgrade-splits_example :
    let old_set = map (λ q. q.name) tools.packages in
    let new_set = pkgs_of_type world new_tools tools.pkg_types in
    (b : TransactionBunch) × ((group_upgrade world "tools" start).0 ≡ bunch b)
    × All (λ e. mem (entry_name e) old_set ≡ false) b.install
    × All (λ e. mem (entry_name e) old_set ≡ true) b.upgrade
    × All
        (λ e.
          (mem (entry_name e) old_set ≡ true) × (mem (entry_name e) (names world new_set) ≡ false))
        b.remove
    × All
        (λ q.
          (has (trans_of_comps world q) b.install || has (trans_of_comps world q) b.upgrade) ≡ true)
        new_set
group_upgrade-splits_example = group_upgrade-splits world "tools" start tools new_tools refl refl

sed-answer :
    is_removable_pkg true ("tools" ∷ "text" ∷ []) (("tools", tools) ∷ []) [] "sed" ≡ some false
unfolding program
sed-answer = refl

is_removable_pkg-holds_example : (false ≡ true) ↔ (
    (true ≡ true)
    × ((g : String) → holds "sed" ("tools" ∷ "text" ∷ []) (("tools", tools) ∷ []) [] g ≡ false))
is_removable_pkg-holds_example =
    is_removable_pkg-holds true ("tools" ∷ "text" ∷ []) (("tools", tools) ∷ []) [] "sed" false
      sed-answer

tools-IsTracked : IsTracked "sed" ("tools" ∷ "text" ∷ []) (("tools", tools) ∷ [])
unfolding program
tools-IsTracked = ((λ e. ground (arith, e), (λ e. refl, tt)), λ e. refl, refl, tt)

is_removable_pkg-some_example :
    (b : Bool) × (is_removable_pkg true ("tools" ∷ "text" ∷ []) (("tools", tools) ∷ []) [] "sed"
      ≡ some b)
is_removable_pkg-some_example =
    is_removable_pkg-some true ("tools" ∷ "text" ∷ []) (("tools", tools) ∷ []) [] "sed"
      tools-IsTracked
