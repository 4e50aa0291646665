-- ===== src/Marks/Specs/Tests.antt =====
-- A group that is installed, removed and installed with a package and an unknown one.
use dnf.Base.{
  ◌||◌, ◌&&◌, mem, All, arith, ℕ, String, true, false, not, none, some, List, [], ◌∷◌, map, filter,
  ◌==◌, String_eq, ℕ_eq, if◌then◌else◌, ◌≡◌, refl,
}
use dnf.Base.Dict.{lookup, insert, add}
use dnf.Util.Specs.{parse_specs, specs_loop, add_spec}
use dnf.Base.Text.{starts_with, ends_with}
use dnf.Comps.{
  mandatory, CompsPackage, empty_bunch, iadd, update_set, add_entry, difference, is_removable_pkg,
  drop_removed, add_installed, drop_group, entry_name,
}
use dnf.Comps.Solver.{
  CompsGroup, World, group_install, group_remove, group_upgrade, pkgs_of_type, new_group,
  removable_pkg, removable_pkgs, upgrade_bunch, trans_of_comps, trans_of_name, trans_of_swdb,
}
use dnf.Comps.Environment.{environment_install, environment_remove, environment_upgrade}
use dnf.Marks.{Package}
use dnf.Marks.Tests.{setting}
use dnf.Marks.Subjects.{install, remove}
use dnf.Marks.Packages.{package_remove}
use dnf.Marks.Groups.Asks.{collect, erased_by}
use dnf.Marks.Autoremove.{
  Unneeded, is_protected, protected, remove_each, autoremove_all, autoremove_groups, remove_specs,
  autoremove,
}
use dnf.Marks.Autoremove.Protected.{autoremove-protected}
use dnf.Marks.GroupSpecs.{
  Found, get, get_all, State, counted, error, add_comps_trans, add_unless_empty, count_loop,
  install_loop, env_group_install, env_group_remove, upgrade_loop, upgrade_patterns,
  env_group_upgrade,
}
use dnf.Marks.GroupSpecs.Grows.{
  Operation, install_op, remove_op, upgrade_op, perform, perform_all, Grows,
}
use dnf.Marks.Specs.{
  Request, exclude_package_specs, expand_groups, install_groups, install_pkgs, install_specs, split,
}
use dnf.Marks.Specs.Reports.{
  fails, asked, to_goal, setting_for, pkg_specs_of, install_specs-reports,
}

run_all : Unit {0}
unfolding lookup insert add parse_specs specs_loop add_spec starts_with ends_with iadd update_set
    add_entry difference is_removable_pkg drop_removed add_installed drop_group group_install
    group_remove group_upgrade pkgs_of_type new_group removable_pkg removable_pkgs upgrade_bunch
    trans_of_comps trans_of_name trans_of_swdb environment_install environment_remove
    environment_upgrade get get_all add_comps_trans add_unless_empty count_loop install_loop
    env_group_install env_group_remove upgrade_loop upgrade_patterns env_group_upgrade
    exclude_package_specs expand_groups install_groups install_pkgs install_specs
run_all = tt

abbrev comps_package : String → ℕ → CompsPackage
comps_package name handle = record {
  name = name;
  handle = handle;
  kind = mandatory;
  basearchonly = false;
  requires = none;
}

abbrev tools : CompsGroup
tools = record { id = "tools"; packages = comps_package "tool" 1 ∷ comps_package "sed" 2 ∷ [] }

abbrev world : World
world = record {
  group_by_id = λ id. if id == "tools" then some tools else none;
  env_by_id = λ id. none;
  swdb_group = λ id. none;
  swdb_env = λ id. none;
  has_group_reason = λ name. true;
  package_groups = λ name. [];
  group_envs = λ id. [];
  selects = λ types kind. true;
  comps_optional = λ kind. 0;
  swdb_optional = λ kind. 0;
}

abbrev search : String → Found
search pattern = record {
  environments = [];
  groups = if pattern == "tools" then "tools" ∷ [] else [];
}

abbrev start : State
start = record {
  comps_trans = empty_bunch;
  persistors = record {
    groups_installed = [];
    groups_removed = [];
    groups_upgraded = [];
    envs_installed = [];
    envs_removed = [];
    envs_upgraded = [];
  };
}

abbrev operations : List Operation
operations =
    install_op search ("tools" ∷ []) 1 true []
    ∷ remove_op search ("unknown" ∷ [])
    ∷ upgrade_op search ("tools" ∷ [])
    ∷ []

perform_all-tools :
    (map entry_name (perform_all world operations start).comps_trans.install ≡ "tool" ∷ "sed" ∷ [])
    × ((perform world (install_op search ("tools" ∷ []) 1 true []) start).1 ≡ counted 2)
    × ((perform world (remove_op search ("unknown" ∷ [])) start).1 ≡ error)
unfolding run_all
perform_all-tools = (refl, refl, refl)

abbrev request : Request
request = record {
  world = world;
  setting_without = λ q. setting;
  search_available = search;
  search_all = search;
  search_installed = search;
  group_package_types = "mandatory" ∷ [];
  types_of = λ types. 1;
  with_modules = false;
  install_modules =
      λ specs strict. record { no_match_specs = specs; error_specs = []; depsolv_errors = [] };
  glob_match = λ glob name. false;
  scheme = λ text. "";
}

abbrev specs : List String
specs = "tool" ∷ "@tools/mandatory" ∷ "@unknown" ∷ []

split-types : split 47 "tools/mandatory,optional" ≡ "tools" ∷ "mandatory,optional" ∷ []
split-types = refl

install_specs-unknown :
    let r = install_specs request specs [] none true start in
    (r.errors.no_match_group_specs ≡ "@unknown" ∷ [])
    × (r.errors.no_match_pkg_specs ≡ [])
    × (map entry_name r.state.comps_trans.install ≡ "tool" ∷ "sed" ∷ [])
unfolding run_all install
install_specs-unknown = (refl, refl, refl)

install_specs-reports_example :
    let r = install_specs request specs [] none true start in
    let is_bad = fails request (setting_for request []) none true in
    (r.errors.no_match_pkg_specs ≡ filter is_bad (pkg_specs_of request specs))
    × (to_goal r.asks
        ≡ asked request
            (setting_for request [])
            none
            true
            (filter (λ spec. not (is_bad spec)) (pkg_specs_of request specs)))
    × Grows start.comps_trans r.state.comps_trans
install_specs-reports_example = install_specs-reports request specs [] none true start

-- Two packages are unneeded, one of them protected.
abbrev unneeded : Unneeded
unneeded = record {
  unneeded = λ p. (p.name == "library") || (p.name == "old");
  unneeded_extra_userinstalled = λ wanted p. (p.name == "old") && not (mem p.name ("library" ∷ []));
  protected_packages = "library" ∷ [];
}

same_library : (p : Package) → setting.equal p p ≡ true
same_library p = ground (arith, String_eq.beq_iff p.name p.name, String_eq.beq_iff p.evr p.evr)

keeps_library :
    (p : Package)
    → is_protected world setting unneeded search p ≡ true
    → unneeded.unneeded_extra_userinstalled (protected world setting unneeded search) p ≡ false
keeps_library p e = ground (arith, e)

autoremove-old :
    map
      (λ p. p.name)
      (collect erased_by (autoremove world setting unneeded search false [] [] [] start).2)
    ≡ "old" ∷ []
unfolding run_all remove_each package_remove autoremove_all autoremove_groups remove_specs
    autoremove remove
autoremove-old = refl

autoremove-protected_example :
    All
      (λ p. is_protected world setting unneeded search p ≡ false)
      (collect erased_by (autoremove world setting unneeded search false [] [] [] start).2)
autoremove-protected_example =
    autoremove-protected world setting unneeded search same_library keeps_library false start
