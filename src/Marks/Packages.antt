-- ===== src/Marks/Packages.antt =====
-- The operations of dnf/base.py that mark packages: `package_install` to `downgrade_to`.
use dnf.Base.{
  ℕ, String, Bool, true, false, not, ◌&&◌, ◌||◌, Option, none, some, List, [], ◌∷◌, map, any, ◌==◌,
  ℕ_eq, String_eq, if◌then◌else◌,
}
use dnf.Marks.{
  Package, Query, no_package, union, intersection, installed, available, has_any, run, by_packages,
  Ask, goal_install, goal_upgrade, goal_erase, already_installed, Setting, Solution,
}
use dnf.Marks.Multiarch.{query_matches_installed}

-- The errors that are raised, and what a text says of the matches.
pub data Reported : Type 0 where
  no_match excluded other_repository modular : Reported

pub data Failure : Type 0 where
  package_not_found packages_not_installed packages_not_available marking_error : Reported → Failure
  not_implemented : Failure

-- How an operation ends: with a number of marked packages, or with an error.
pub data Outcome : Type 0 where
  marked : ℕ → Outcome
  failed : Failure → Outcome

abbrev pub Marking : Type 0
Marking = List Ask × Outcome

module _ (w : Setting) where
  abbrev pub everything : Query
  everything p = true

  abbrev pub only : Package → Query
  only pkg p = p.id == pkg.id

  abbrev pub from_system : Package → Bool
  from_system pkg = pkg.reponame == "@System"

  abbrev pub of_repo : Option String → Query → Query
  of_repo none q p = q p
  of_repo (some reponame) q p = q p && (p.reponame == reponame)

  -- Has a query a package of this name?
  abbrev pub names : Query → String → Bool
  names q name = any (λ p. p.name == name) (run w.sack q)

  -- `sorted(q)[0]` and `sorted(q)[-1]` of a list that begins with a package.
  abbrev pub least : Package → List Package → Package
  least p [] = p
  least p (q ∷ qs) = if w.lower q p then least q qs else least p qs

  abbrev pub greatest : Package → List Package → Package
  greatest p [] = p
  greatest p (q ∷ qs) = if w.lower q p then greatest p qs else greatest q qs

  -- `_raise_package_not_found_error`
  abbrev pub not_found : String → Option String → Failure
  not_found pkg_spec reponame =
      let query = of_repo reponame (w.unfiltered_query pkg_spec) in
      if not (has_any w.sack query)
      then package_not_found no_match
      else if has_any w.sack (intersection query w.regular_query)
      then package_not_found excluded
      else package_not_found modular

  -- `_raise_package_not_installed_error`
  abbrev pub not_installed : String → Option String → Failure
  not_installed pkg_spec reponame =
      let query = installed (w.unfiltered_query pkg_spec) in
      if not (has_any w.sack query) then packages_not_installed no_match else elim reponame [
        | none ↦ packages_not_installed excluded
        | some r ↦
            if has_any w.sack (λ p. query p && (w.repo p == r))
            then packages_not_installed excluded
            else packages_not_installed other_repository
      ]

  -- `arch=[pkg.arch, "noarch"]` of the installed packages with the package's name
  abbrev pub installed_like : Package → Query
  installed_like pkg =
      installed (λ p. (p.name == pkg.name) && ((p.arch == pkg.arch) || (p.arch == "noarch")))

  abbrev pub compare_least : Package → Bool → List Package → Marking
  compare_least pkg strict [] = ([], failed (marking_error no_match))
  compare_least pkg strict (p ∷ ps) =
      if w.lower pkg (least p ps)
      then (goal_install (by_packages (only pkg) none) (not strict) ∷ [], marked 1)
      else ([], marked 0)

  unfoldable pub package_downgrade : Package → (strict : Bool) → Marking
  package_downgrade pkg strict =
      if from_system pkg
      then ([], failed not_implemented)
      else compare_least pkg strict (run w.sack (installed_like pkg))

  unfoldable pub package_install : Package → (strict : Bool) → Marking
  package_install pkg strict =
      let q =
        λ (p : Package). (p.name == pkg.name) && w.same_evr p.evr pkg.evr && (p.arch == pkg.arch) in
      let (already_inst, available) = query_matches_installed w q in
      if any (w.equal pkg) already_inst
      then (already_installed pkg ∷ [], marked 1)
      else if not (any (λ l. any (w.equal pkg) l) available)
      then ([], failed (package_not_found no_match))
      else (goal_install (by_packages (only pkg) none) (not strict) ∷ [], marked 1)

  unfoldable pub package_reinstall : Package → Marking
  package_reinstall pkg =
      if has_any w.sack
        (installed (λ p. (p.name == pkg.name) && w.same_evr p.evr pkg.evr && (p.arch == pkg.arch)))
      then (goal_install (by_packages (only pkg) none) false ∷ [], marked 1)
      else ([], failed (marking_error no_match))

  unfoldable pub package_remove : Package → Marking
  package_remove pkg = (goal_erase pkg false ∷ [], marked 1)

  abbrev pub compare_greatest : Package → List Package → Marking
  compare_greatest pkg [] = ([], failed (marking_error no_match))
  compare_greatest pkg (p ∷ ps) =
      if w.lower (greatest p ps) pkg
      then (goal_upgrade (only pkg) ∷ [], marked 1)
      else ([], marked 0)

  unfoldable pub package_upgrade : Package → Marking
  package_upgrade pkg =
      if from_system pkg
      then ([], failed not_implemented)
      else if pkg.arch == "src"
      then ([], marked 0)
      else if w.obsoletes
          && has_any w.sack (intersection (only pkg) (w.obsoleting (installed everything)))
      then (goal_upgrade (only pkg) ∷ [], marked 1)
      else compare_greatest pkg (
          run w.sack (
            if pkg.arch == "noarch"
            then installed (λ p. p.name == pkg.name)
            else installed_like pkg))

  -- The loops of `_merge_update_filters`, which replaces the filters by their union.
  abbrev union_all : List Query → Query
  union_all [] = no_package
  union_all (q ∷ qs) = union q (union_all qs)

  abbrev is_nil : {A : Type 0} → List A → Bool
  is_nil [] = true
  is_nil (a ∷ l) = false

  -- `_merge_update_filters`, without what it logs.
  unfoldable pub merge_update_filters : Query → Query
  merge_update_filters q =
      if (is_nil w.security_options && is_nil w.security_filters) || not (has_any w.sack q)
      then q
      else intersection q
          (union (union_all w.security_filters) (union_all (map (λ f. f q) w.security_options)))

  unfoldable pub upgrade_internal :
      Query → (obsoletes : Bool) → (reponame : Option String) → Marking
  unfolding merge_update_filters
  upgrade_internal query obsoletes reponame =
      let installed_all = installed everything in
      let q = λ (p : Package). query p && names installed_all p.name in
      let found =
        if obsoletes
        then union query (available (w.obsoleting (union (installed q) (w.upgrades q))))
        else query in
      let merged = merge_update_filters (of_repo reponame found) in
      (
        if has_any w.sack merged
            then goal_upgrade
                (union merged (λ p. w.latest_evr installed_all p && names merged p.name))
              ∷ []
            else [],
        marked 1,
      )

  -- `upgrade`, after the query is found.
  abbrev pub upgrade_found : Solution → Option String → Marking
  upgrade_found solution reponame =
      upgrade_internal solution.query (w.obsoletes && solution.is_nevra && solution.has_just_name)
        reponame

  unfoldable pub upgrade : String → (reponame : Option String) → Marking
  unfolding upgrade_internal
  upgrade pkg_spec reponame =
      let solution = w.best_solution pkg_spec in
      let q = solution.query in
      if not (has_any w.sack q)
      then ([], failed (marking_error no_match))
      else if w.is_glob_pattern pkg_spec || not solution.is_nevra
      then upgrade_found solution reponame
      else elim solution.name [
        | none ↦ upgrade_found solution reponame
        | some pkg_name ↦
            if not (
                w.obsoletes
                && has_any w.sack (intersection q (w.obsoleting (installed everything))))
              && not (names (installed everything) pkg_name)
            then ([], failed (packages_not_installed no_match))
            else upgrade_found solution reponame
      ]

  -- `upgrade_all`
  unfoldable pub upgrade_all : (reponame : Option String) → Marking
  unfolding upgrade_internal
  upgrade_all reponame = upgrade_internal everything w.obsoletes reponame
