-- ===== src/Marks/Autoremove.antt =====
-- `Base.autoremove` of dnf/base.py.
pub mod Protected
use dnf.Base.{
  ℕ, String, Bool, true, false, not, ◌&&◌, ◌||◌, none, List, [], ◌∷◌, ◌++◌, map, any, mem, ◌==◌,
  ℕ_eq, String_eq, if◌then◌else◌,
}
use dnf.Comps.Solver.{World}
use dnf.Marks.{Package, Query, installed, run, Ask, goal_erase, Setting}
use dnf.Marks.Packages.{Outcome, marked, failed, everything, package_remove}
use dnf.Marks.Subjects.{remove}
use dnf.Marks.GroupSpecs.{
  Found, State, Ended, counted, comps_failed, key_failed, error, env_group_remove,
}

-- What libdnf and the configuration say besides: `_unneeded`, `_unneeded_extra_userinstalled` with
-- the packages that count as wanted by the user, and the names of the protected packages.
pub record Unneeded : Type 0 where
  pub unneeded : Query
  pub unneeded_extra_userinstalled : List Package → Query
  pub protected_packages : List String

abbrev pub no_specs : List String → Bool
no_specs [] = true
no_specs (spec ∷ specs) = false

module _ (world : World) (w : Setting) (u : Unneeded) (search_installed : String → Found) where
  -- `query().installed().filterm(name=protected_packages)`
  abbrev pub is_protected : Query
  is_protected p = (p.reponame == "@System") && mem p.name u.protected_packages

  abbrev pub protected : List Package
  protected = run w.sack is_protected

  -- Is a protected package in `unneeded_pkgs`?
  abbrev pub protected_found : Bool
  protected_found = any (λ pkg. any (w.equal pkg) (run w.sack u.unneeded)) protected

  -- `for pkg in ...: self.package_remove(pkg)`
  unfoldable pub remove_each : List Package → List Ask
  unfolding package_remove
  remove_each [] = []
  remove_each (pkg ∷ pkgs) = (package_remove w pkg).0 ++ remove_each pkgs

  -- Without arguments: the packages that are no longer needed.
  unfoldable pub autoremove_all : List Ask
  unfolding remove_each
  autoremove_all =
      let unneeded_pkgs =
        if protected_found then u.unneeded_extra_userinstalled protected else u.unneeded in
      remove_each (run w.sack unneeded_pkgs)

  abbrev is_done : Ended → Bool
  is_done (counted n) = not (n == 0)
  is_done _ = false

  -- The groups; nothing is done for them where forms are asked for.
  unfoldable pub autoremove_groups : (forms : Bool) → List String → State → State × Ended
  unfolding env_group_remove
  autoremove_groups forms grp_specs s =
      if forms || no_specs grp_specs
      then (s, counted 0)
      else env_group_remove world search_installed grp_specs s

  abbrev or_marked : Outcome → Bool → Bool
  or_marked (marked n) done = true
  or_marked (failed f) done = done

  -- The loop over the packages, and whether one is marked; MarkingError is only logged.
  unfoldable pub remove_specs : List String → List Ask × Bool
  unfolding remove
  remove_specs [] = ([], false)
  remove_specs (spec ∷ specs) =
      let (asks, outcome) = remove w spec none in
      let (more, done) = remove_specs specs in (asks ++ more, or_marked outcome done)

  -- What follows the groups, where nothing is raised; it ends with whether anything is done.
  abbrev with_packages : State × Ended → List Ask × Bool → State × Ended × List Ask
  with_packages (s, counted n) (asks, done) =
      (s, counted (if done || is_done (counted n) then 1 else 0), asks)
  with_packages (s, comps_failed) r = (s, comps_failed, [])
  with_packages (s, key_failed) r = (s, key_failed, [])
  with_packages (s, error) r = (s, error, [])

  unfoldable pub autoremove :
      (forms : Bool)
      → (pkg_specs grp_specs filenames : List String) → State
      → State × Ended × List Ask
  unfolding autoremove_all autoremove_groups remove_specs
  autoremove forms pkg_specs grp_specs filenames s =
      if no_specs grp_specs && no_specs pkg_specs && no_specs filenames
      then (s, counted 0, autoremove_all)
      else with_packages (autoremove_groups forms grp_specs s)
          (remove_specs (pkg_specs ++ filenames))
