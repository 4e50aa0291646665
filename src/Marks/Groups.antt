-- ===== src/Marks/Groups.antt =====
-- `Base._finalize_comps_trans` and `Base._remove_if_unneeded` of dnf/base.py.
pub mod Asks
pub mod Removed
use dnf.Base.{
  String, Bool, true, false, not, ◌&&◌, ◌||◌, Option, none, some, List, [], ◌∷◌, ◌++◌, map, filter,
  any, mem, ◌==◌, String_eq, if◌then◌else◌,
}
use dnf.Comps.{Entry, raw_package, trans_pkg, entry_name, TransactionBunch}
use dnf.Marks.{
  Package, Query, no_package, union, intersection, difference, installed, has_any, run, Ask,
  goal_install, goal_upgrade, goal_erase, set_dependency, group_member, no_match, already_installed,
  by_packages, by_condition, Setting,
}
use dnf.Marks.Multiarch.{install_multiarch}

abbrev pub entry_basearchonly : Entry → Bool
entry_basearchonly (raw_package p) = p.basearchonly
entry_basearchonly (trans_pkg name basearchonly option requires) = basearchonly

abbrev pub entry_requires : Entry → Option String
entry_requires (raw_package p) = p.requires
entry_requires (trans_pkg name basearchonly option requires) = requires

-- `fn` of the four lists.
pub data Step : Type 0 where
  trans_install : (strict : Bool) → Step
  trans_upgrade trans_remove : Step

module _ (w : Setting) where
  -- The packages of the sack that a comps package stands for.
  abbrev pub matches : Entry → Query
  matches comps_pkg p =
      (p.name == entry_name comps_pkg)
      && (not (entry_basearchonly comps_pkg) || (p.arch == w.basearch))
      && not (mem p.arch ("src" ∷ "nosrc" ∷ []))

  abbrev pub add_obsoleters : Query → Query
  add_obsoleters query =
      if not w.obsoletes
      then query
      else if has_any w.sack (installed query)
      then union query (w.obsoleting query)
      else union query (w.obsoleting (w.latest query))

  unfoldable pub install_asks : (strict : Bool) → Query → Entry → List Ask
  unfolding install_multiarch
  install_asks strict query comps_pkg = elim (entry_requires comps_pkg) [
    | some requires ↦
        (if w.multilib_all then map already_installed (run w.sack (installed query)) else [])
        ++ goal_install (by_condition (entry_name comps_pkg) requires) (not strict) ∷ []
    | none ↦
        if w.multilib_all
        then (install_multiarch w query none strict).0
        else goal_install (by_packages (add_obsoleters query) none) (not strict) ∷ []
  ]

  -- What a step asks for, and the packages that it leaves to be removed.
  abbrev pub step_asks : Step → Query → Entry → List Ask
  step_asks (trans_install strict) query comps_pkg = install_asks strict query comps_pkg
  step_asks trans_upgrade query comps_pkg = goal_upgrade query ∷ []
  step_asks trans_remove query comps_pkg = []

  abbrev pub step_remove : Step → Query → Query → Query
  step_remove trans_remove query remove_query = union remove_query query
  step_remove _ query remove_query = remove_query

  abbrev pub no_match_of : Entry → Ask
  no_match_of comps_pkg =
      no_match (entry_name comps_pkg)
        (if entry_basearchonly comps_pkg then some w.basearch else none)

  -- The loop over one of the lists.
  unfoldable pub trans_loop : Step → List Entry → Query × List Ask → Query × List Ask
  unfolding install_asks
  trans_loop fn [] (remove_query, asks) = (remove_query, asks)
  trans_loop fn (comps_pkg ∷ attr) (remove_query, asks) =
      let q = matches comps_pkg in
      let matched = trans_loop fn attr (
        step_remove fn q remove_query,
        asks ++ step_asks fn q comps_pkg ++ group_member (entry_name comps_pkg) ∷ [],
      ) in
      let unmatched = trans_loop fn attr (remove_query, asks ++ no_match_of comps_pkg ∷ []) in
      if has_any w.sack q then matched else unmatched

  unfoldable pub remove_if_unneeded : Query → List Ask
  remove_if_unneeded remove_query =
      let query = installed remove_query in
      let unneeded_pkgs = w.safe_to_remove query in
      let unneeded_pkgs_history = λ (p : Package). query p && w.is_removable p.name in
      if has_any w.sack query
      then map set_dependency (run w.sack (difference unneeded_pkgs_history unneeded_pkgs))
        ++ map (λ pkg. goal_erase pkg w.clean_requirements_on_remove)
            (run w.sack (intersection query (intersection unneeded_pkgs unneeded_pkgs_history)))
      else []

  -- The four loops.
  unfoldable pub trans_loops : TransactionBunch → Query × List Ask
  unfolding trans_loop
  trans_loops trans = trans_loop trans_remove trans.remove (
      trans_loop trans_upgrade trans.upgrade (
        trans_loop (trans_install false) trans.install_opt
          (trans_loop (trans_install true) trans.install (no_package, []))))

  unfoldable pub finalize_comps_trans : TransactionBunch → List Ask
  unfolding trans_loops remove_if_unneeded
  finalize_comps_trans trans =
      let (remove_query, asks) = trans_loops trans in asks ++ remove_if_unneeded remove_query
