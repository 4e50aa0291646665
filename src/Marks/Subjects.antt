-- ===== src/Marks/Subjects.antt =====
-- The operations of dnf/base.py that mark what a spec stands for, but `upgrade`.
pub mod Counts
pub mod Clean
use dnf.Base.{
  ℕ, zero, suc, String, Bool, true, false, not, ◌&&◌, ◌||◌, Option, none, some, List, [], ◌∷◌, ◌++◌,
  map, filter, any, length, ◌==◌, ℕ_eq, String_eq, if◌then◌else◌,
}
use dnf.Marks.{
  Package, Query, intersection, installed, available, has_any, run, Selector, by_packages, Ask,
  goal_install, goal_distupgrade, goal_distupgrade_all, goal_erase, already_installed, Setting,
}
use dnf.Marks.Multiarch.{install_multiarch}
use dnf.Marks.Packages.{
  Marking, marked, failed, no_match, packages_not_installed, packages_not_available, not_found,
  not_installed, package_not_found, of_repo, names, everything,
}

module _ (w : Setting) where
  abbrev pub select_all : (strict : Bool) → List Selector → List Ask
  select_all strict sltrs = map (λ sltr. goal_install sltr (not strict)) sltrs

  abbrev pub install_multi : Query → Option String → Bool → Marking
  install_multi q reponame strict =
      ((install_multiarch w q reponame strict).0, marked (install_multiarch w q reponame strict).1)

  abbrev pub install_best : String → Option String → Bool → List Selector → Marking
  install_best pkg_spec reponame strict [] = ([], failed (not_found w pkg_spec reponame))
  install_best pkg_spec reponame strict (sltr ∷ sltrs) =
      (select_all strict (sltr ∷ sltrs), marked 1)

  -- `install`; the multilib policy is one of `all` and `best`.
  unfoldable pub install : String → (reponame : Option String) → (strict : Bool) → Marking
  install pkg_spec reponame strict =
      let solution = w.install_solution pkg_spec in
      let q = of_repo w reponame solution.query in
      if w.multilib_all || solution.is_arch_specified
      then if has_any w.sack q
        then install_multi q reponame strict
        else ([], failed (not_found w pkg_spec reponame))
      else install_best pkg_spec reponame strict (w.best_selectors pkg_spec reponame)

  -- The installed packages of a query that came from the repository.
  abbrev pub installed_from : Query → Option String → List Package
  installed_from q none = run w.sack (installed q)
  installed_from q (some reponame) = filter (λ p. w.repo p == reponame) (run w.sack (installed q))

  abbrev pub remove_all : String → Option String → List Package → Marking
  remove_all pkg_spec reponame [] = ([], failed (not_installed w pkg_spec reponame))
  remove_all pkg_spec reponame (p ∷ ps) = (
    map (λ pkg. goal_erase pkg w.clean_requirements_on_remove) (p ∷ ps),
    marked (length (p ∷ ps)),
  )

  unfoldable pub remove : String → (reponame : Option String) → Marking
  remove pkg_spec reponame =
      remove_all pkg_spec reponame (installed_from (w.remove_query pkg_spec) reponame)

  -- `_per_nevra_dict(available_q)[ucd(pkg)]`; none for KeyError
  abbrev pub same_nevra : List Package → Package → List Package
  same_nevra available_q pkg = filter (λ p. w.nevra p == w.nevra pkg) available_q

  abbrev pub reinstall_one : (remove_na : Bool) → Package → List Package → List Ask
  reinstall_one remove_na pkg [] =
      if remove_na then goal_erase pkg w.clean_requirements_on_remove ∷ [] else []
  reinstall_one remove_na pkg (p ∷ ps) =
      goal_install (by_packages (λ q. any (λ o. o.id == q.id) (p ∷ ps)) none) (not w.strict) ∷ []

  -- The loop over the installed packages: what is asked, and `cnt`.
  unfoldable pub reinstall_loop : (remove_na : Bool) → List Package → List Package → List Ask × ℕ
  reinstall_loop remove_na available_q [] = ([], 0)
  reinstall_loop remove_na available_q (pkg ∷ installed_pkgs) =
      let (asks, cnt) = reinstall_loop remove_na available_q installed_pkgs in
      elim (reinstall_one remove_na pkg (same_nevra available_q pkg)) [
        | [] ↦ (asks, cnt)
        | a ∷ more ↦ (a ∷ asks, suc cnt)
      ]

  abbrev pub count_marked : List Ask × ℕ → Marking
  count_marked (asks, zero) = (asks, failed (packages_not_available no_match))
  count_marked (asks, suc cnt) = (asks, marked (suc cnt))

  abbrev pub reinstall_all : (remove_na : Bool) → List Package → List Package → Marking
  reinstall_all remove_na available_q [] = ([], failed (packages_not_installed no_match))
  reinstall_all remove_na available_q (p ∷ ps) =
      count_marked (reinstall_loop remove_na available_q (p ∷ ps))

  -- `filterm(reponame=..., reponame__neq=...)` of the available packages
  abbrev pub available_from : Query → Option String → Option String → Query
  available_from q new_reponame new_reponame_neq p =
      of_repo w new_reponame (available q) p
      && (elim new_reponame_neq [ none ↦ true | some neq ↦ not (p.reponame == neq) ])

  unfoldable pub reinstall :
      String
      → (old_reponame new_reponame new_reponame_neq : Option String) → (remove_na : Bool) → Marking
  unfolding reinstall_loop
  reinstall pkg_spec old_reponame new_reponame new_reponame_neq remove_na =
      let q = (w.best_solution pkg_spec).query in
      reinstall_all remove_na (run w.sack (available_from q new_reponame new_reponame_neq))
        (installed_from q old_reponame)

  -- The loop over the names of the installed packages.
  unfoldable pub downgrade_loop : (strict : Bool) → Query → List String → List Ask × ℕ
  downgrade_loop strict available_pkgs [] = ([], 0)
  downgrade_loop strict available_pkgs (pkg_name ∷ names) =
      let downgrade_pkgs = λ (p : Package). w.downgrades available_pkgs p && (p.name == pkg_name) in
      let (asks, done) = downgrade_loop strict available_pkgs names in
      if has_any w.sack downgrade_pkgs
      then (goal_install (by_packages downgrade_pkgs none) (not strict) ∷ asks, 1)
      else (asks, done)

  unfoldable pub downgrade_to : String → (strict : Bool) → Marking
  unfolding downgrade_loop
  downgrade_to pkg_spec strict =
      let q = (w.best_solution pkg_spec).query in
      let available_pkgs = available q in
      let q_installed = installed (λ p. names w available_pkgs p.name) in
      let (asks, done) = downgrade_loop strict available_pkgs (w.query_names q_installed) in
      if not (has_any w.sack q)
      then ([], failed (package_not_found no_match))
      else if not (has_any w.sack q_installed)
      then ([], failed (packages_not_installed no_match))
      else (asks, marked done)

  -- `downgrade`
  unfoldable pub downgrade : String → Marking
  unfolding downgrade_to
  downgrade pkg_spec = downgrade_to pkg_spec false

  abbrev pub sync_all : List Selector → Marking
  sync_all [] = ([], marked 0)
  sync_all (sltr ∷ sltrs) = (map goal_distupgrade (sltr ∷ sltrs), marked 1)

  -- `distro_sync`
  unfoldable pub distro_sync : Option String → Marking
  distro_sync none = (goal_distupgrade_all ∷ [], marked 1)
  distro_sync (some pkg_spec) = sync_all (w.sync_selectors pkg_spec)
