-- ===== src/Marks/Tests.antt =====
-- A sack with a tool that is installed and has a newer version, and with an old package.
use dnf.Base.{
  ℕ, String, true, false, not, ◌&&◌, none, some, List, [], ◌∷◌, map, any, All, ltb, length, ◌==◌,
  ℕ_eq, String_eq, ◌≡◌, refl,
}
use dnf.Comps.{Entry, trans_pkg, TransactionBunch}
use dnf.Marks.{Package, Query, Setting, Solution, run, goal_erase, by_packages}
use dnf.Marks.Exclude
use dnf.Marks.Exclude.{
  union_best, repo_includes, repo_excludes, main_includes, main_excludes, setup_excludes_includes,
}
use dnf.Marks.Exclude.Excluded.{excludes, includes, is_matched, setup_excludes_includes-matched}
use dnf.Marks.Multiarch.{match_loop, query_matches_installed, install_multiarch}
use dnf.Marks.Groups.{
  install_asks, trans_loop, trans_loops, remove_if_unneeded, finalize_comps_trans,
}
use dnf.Marks.Groups.Asks.{collect, erased_by, freed_by}
use dnf.Marks.Groups.Removed.{leaves, is_safe, finalize_comps_trans-removed}
use dnf.Marks.Packages.{
  marked, failed, package_downgrade, package_install, package_reinstall, package_remove,
  package_upgrade, merge_update_filters, upgrade_internal, upgrade, upgrade_all, marking_error,
  no_match,
}
use dnf.Marks.Subjects.{
  install, remove, reinstall_loop, reinstall, downgrade_loop, downgrade_to, downgrade, distro_sync,
}
use dnf.Marks.Subjects.Counts.{Promised, remove_op, reinstall_op}
use dnf.Marks.Subjects.Clean.{perform, perform-Promised}

program : Unit {0}
unfolding union_best repo_includes repo_excludes main_includes main_excludes setup_excludes_includes
    match_loop query_matches_installed install_multiarch install_asks trans_loop trans_loops
    remove_if_unneeded finalize_comps_trans package_downgrade package_install package_reinstall
    package_remove package_upgrade merge_update_filters upgrade_internal upgrade upgrade_all install
    remove reinstall_loop reinstall downgrade_loop downgrade_to downgrade
program = tt

abbrev a_package : ℕ → String → String → String → Package
a_package id name evr reponame = record {
  id = id;
  name = name;
  arch = "x86_64";
  evr = evr;
  reponame = reponame;
}

abbrev tool : Package
tool = a_package 1 "tool" "1" "@System"

abbrev new_tool : Package
new_tool = a_package 2 "tool" "2" "base"

abbrev old : Package
old = a_package 3 "old" "1" "@System"

abbrev library : Package
library = a_package 4 "library" "1" "@System"

abbrev sack : List Package
sack = tool ∷ new_tool ∷ old ∷ library ∷ []

abbrev named : String → Query
named name p = p.name == name

abbrev solve : String → Solution
solve spec = record {
  query = named spec;
  is_nevra = true;
  name = some spec;
  has_just_name = true;
  is_arch_specified = false;
}

abbrev pub setting : Setting
setting = record {
  multilib_all = false;
  obsoletes = false;
  clean_requirements_on_remove = true;
  basearch = "x86_64";
  sack = sack;
  obsoleting = λ q p. false;
  latest = λ q. q;
  na_dict = λ q. map (λ p. ((p.name, p.arch), p ∷ [])) (run sack q);
  safe_to_remove = λ q p. q p && not (p.name == "library");
  is_removable = λ name. not (name == "tool");
  strict = true;
  same_evr = λ a b. a == b;
  equal = λ a b. (a.name == b.name) && (a.evr == b.evr);
  lower = λ a b. (a.name == b.name) && ltb a.id b.id;
  latest_evr = λ q. q;
  upgrades = λ q. q;
  downgrades = λ q p. false;
  best_solution = solve;
  unfiltered_query = named;
  install_solution = solve;
  remove_query = named;
  regular_query = λ p. true;
  is_glob_pattern = λ spec. false;
  best_selectors = λ spec reponame. by_packages (named spec) reponame ∷ [];
  sync_selectors = λ spec. [];
  nevra = λ p. p.name;
  query_names = λ q. map (λ p. p.name) (run sack q);
  repo = λ p. "base";
  security_filters = [];
  security_options = [];
}

abbrev group_package : String → Entry
group_package name = trans_pkg name false 0 none

-- A group of all packages is removed, while a new tool is installed.
abbrev trans : TransactionBunch
trans = record {
  install = group_package "tool" ∷ group_package "missing" ∷ [];
  install_opt = [];
  remove = group_package "old" ∷ group_package "library" ∷ group_package "tool" ∷ [];
  upgrade = [];
}

finalize_comps_trans-old :
    (collect erased_by (finalize_comps_trans setting trans) ≡ old ∷ [])
    × (collect freed_by (finalize_comps_trans setting trans) ≡ library ∷ [])
    × (length (finalize_comps_trans setting trans) ≡ 8)
unfolding program
finalize_comps_trans-old = (refl, refl, refl)

finalize_comps_trans-removed_example :
    (collect erased_by (finalize_comps_trans setting trans)
      ≡ run sack (λ p. leaves setting trans p && is_safe setting trans p))
    × (collect freed_by (finalize_comps_trans setting trans)
        ≡ run sack (λ p. leaves setting trans p && not (is_safe setting trans p)))
finalize_comps_trans-removed_example = finalize_comps_trans-removed setting trans

perform-tool :
    (perform setting (remove_op "old" none) ≡ (goal_erase old true ∷ [], marked 1))
    × ((package_upgrade setting new_tool).1 ≡ marked 1)
    × ((package_downgrade setting new_tool true).1 ≡ marked 0)
    × ((reinstall setting "tool" none none none false).1 ≡ marked 1)
    × ((upgrade setting "none" none).1 ≡ failed (marking_error no_match))
unfolding program
perform-tool = (refl, refl, refl, refl, refl)

distro_sync-none :
    ((distro_sync setting (some "tool")).1 ≡ marked 0) × ((distro_sync setting none).1 ≡ marked 1)
unfolding program distro_sync
distro_sync-none = (refl, refl)

perform-Promised_example :
    Promised
      (reinstall_op "tool" none none none false)
      (perform setting (reinstall_op "tool" none none none false))
perform-Promised_example = perform-Promised setting (reinstall_op "tool" none none none false)

abbrev base_repo : Exclude.Repo
base_repo = record { id = "base"; includepkgs = []; excludepkgs = "tool" ∷ [] }

abbrev conf : Exclude.Conf
conf = record { disable_excludes = []; includepkgs = []; excludepkgs = "old" ∷ [] }

setup_excludes_includes-base :
    map
      (λ p. any (excludes p) (setup_excludes_includes sack named true conf (base_repo ∷ []) false))
      sack
    ≡ false ∷ true ∷ true ∷ false ∷ []
unfolding program
setup_excludes_includes-base = refl

setup_excludes_includes-matched_example :
    All
      (λ p.
        (any (excludes p) (setup_excludes_includes sack named true conf (base_repo ∷ []) false)
          ≡ is_matched sack named true
              (λ c. c.excludepkgs)
              (λ r. r.excludepkgs)
              conf
              (base_repo ∷ [])
              false
              p)
        × (any (includes p) (setup_excludes_includes sack named true conf (base_repo ∷ []) false)
            ≡ is_matched sack named true
                (λ c. c.includepkgs)
                (λ r. r.includepkgs)
                conf
                (base_repo ∷ [])
                false
                p))
      sack
setup_excludes_includes-matched_example =
    setup_excludes_includes-matched sack named true conf (base_repo ∷ []) false
