-- ===== src/Marks/Subjects/Clean.antt =====
-- What the marking operations have asked the goal for when they end.
use dnf.Base.{
  none, some, ℕ, zero, suc, String, Bool, false, not, ◌&&◌, ◌||◌, Option, List, [], ◌∷◌, map, ◌==◌,
  ℕ_eq, String_eq, if◌then◌else◌, ◌≡◌, refl, arith, ◌∙◌, Bool-cases, List-cases, inl, inr,
}
use dnf.Marks.{
  Package, Query, installed, available, has_any, run, Selector, by_packages, Ask, goal_install,
  goal_erase, already_installed, Setting,
}
use dnf.Marks.Multiarch.{install_multiarch, query_matches_installed, with_obsoletes, of_packages}
use dnf.Marks.Packages.{
  of_repo, not_found, Marking, marked, failed, package_downgrade, package_install,
  package_reinstall, package_remove, package_upgrade, upgrade, upgrade_all, upgrade_internal, names,
  package_not_found, packages_not_installed, no_match,
}
use dnf.Marks.Subjects.{
  distro_sync, sync_all, available_from, install, remove, reinstall, downgrade_to, downgrade,
  install_multi, install_best, remove_all, reinstall_loop, reinstall_all, count_marked, same_nevra,
  downgrade_loop, installed_from,
}
use dnf.Marks.Subjects.Counts.{
  if-either, IsCounted-IsClean, goal_count-append, goal_count-map, goal_count-none, goal_count,
  IsClean, IsCounted, Promised, Operation, package_downgrade_op, upgrade_all_op, distro_sync_op,
  package_install_op, package_reinstall_op, package_remove_op, package_upgrade_op, upgrade_op,
  install_op, remove_op, reinstall_op, downgrade_op, package_downgrade-IsCounted,
  package_install-IsClean, package_reinstall-IsCounted, package_remove-IsCounted,
  package_upgrade-IsCounted, upgrade-IsClean,
}

module _ (w : Setting) where
  abbrev pub perform : Operation → Marking
  perform (package_downgrade_op pkg strict) = package_downgrade w pkg strict
  perform (package_install_op pkg strict) = package_install w pkg strict
  perform (package_reinstall_op pkg) = package_reinstall w pkg
  perform (package_remove_op pkg) = package_remove w pkg
  perform (package_upgrade_op pkg) = package_upgrade w pkg
  perform (upgrade_op pkg_spec reponame) = upgrade w pkg_spec reponame
  perform (install_op pkg_spec reponame strict) = install w pkg_spec reponame strict
  perform (remove_op pkg_spec reponame) = remove w pkg_spec reponame
  perform (reinstall_op pkg_spec old new neq remove_na) = reinstall w pkg_spec old new neq remove_na
  perform (downgrade_op pkg_spec) = downgrade w pkg_spec
  perform (upgrade_all_op reponame) = upgrade_all w reponame
  perform (distro_sync_op pkg_spec) = distro_sync w pkg_spec

  -- One of the returned groups of packages is asked for at a time.
  install_multi-IsCounted :
      (q : Query) (reponame : Option String) (strict : Bool)
      → IsCounted (install_multi w q reponame strict)
  unfolding install_multiarch
  install_multi-IsCounted q reponame strict =
      let m = query_matches_installed w q in
      let ask = λ (packages : List Package).
        goal_install (by_packages (with_obsoletes w (of_packages w packages)) reponame)
          (not strict) in
      goal_count-append (map already_installed m.0) (map ask m.1)
      ∙ omega (
        arith,
        goal_count-none already_installed (λ p. refl) m.0,
        goal_count-map ask (λ p. refl) m.1,
      )

  install_best-IsClean :
      (pkg_spec : String) (reponame : Option String) (strict : Bool) (sltrs : List Selector)
      → IsClean (install_best w pkg_spec reponame strict sltrs)
  install_best-IsClean pkg_spec reponame strict [] = refl
  install_best-IsClean pkg_spec reponame strict (sltr ∷ sltrs) = tt

  install-IsClean :
      (pkg_spec : String) (reponame : Option String) (strict : Bool)
      → IsClean (install w pkg_spec reponame strict)
  unfolding install
  install-IsClean pkg_spec reponame strict =
      let solution = w.install_solution pkg_spec in
      let q = of_repo w reponame solution.query in
      let multi = install_multi w q reponame strict in
      let best = w.best_selectors pkg_spec reponame in
      if-either IsClean (w.multilib_all || solution.is_arch_specified)
        (if has_any w.sack q then multi else ([], failed (not_found w pkg_spec reponame)))
        (install_best w pkg_spec reponame strict best)
        (if-either IsClean (has_any w.sack q) multi ([], failed (not_found w pkg_spec reponame))
          (IsCounted-IsClean multi (install_multi-IsCounted q reponame strict)) refl)
        (install_best-IsClean pkg_spec reponame strict best)

  remove_all-IsCounted :
      (pkg_spec : String) (reponame : Option String) (ps : List Package)
      → IsCounted (remove_all w pkg_spec reponame ps)
  remove_all-IsCounted pkg_spec reponame [] = refl
  remove_all-IsCounted pkg_spec reponame (p ∷ ps) =
      goal_count-map (λ pkg. goal_erase pkg w.clean_requirements_on_remove) (λ q. refl) (p ∷ ps)

  remove-IsCounted :
      (pkg_spec : String) (reponame : Option String) → IsCounted (remove w pkg_spec reponame)
  unfolding remove
  remove-IsCounted pkg_spec reponame =
      remove_all-IsCounted pkg_spec reponame (installed_from w (w.remove_query pkg_spec) reponame)

  reinstall_loop-count :
      (remove_na : Bool) (available_q ps : List Package)
      → goal_count (reinstall_loop w remove_na available_q ps).0
        ≡ (reinstall_loop w remove_na available_q ps).1
  unfolding reinstall_loop
  reinstall_loop-count remove_na available_q [] = refl
  reinstall_loop-count remove_na available_q (pkg ∷ ps) =
      let rest = reinstall_loop-count remove_na available_q ps in
      elim (List-cases (same_nevra w available_q pkg)) [
        | inl x ↦ elim (Bool-cases remove_na) [
          | inl y ↦ rw (reinstall_loop, x, y) (omega (arith, rest))
          | inr y ↦ rw (reinstall_loop, x, y) (omega (arith, rest))
        ]
        | inr c ↦ rw (reinstall_loop, c.2) (omega (arith, rest))
      ]

  count_marked-IsCounted : (r : List Ask × ℕ) → goal_count r.0 ≡ r.1 → IsCounted (count_marked w r)
  count_marked-IsCounted (asks, zero) h = h
  count_marked-IsCounted (asks, suc n) h = h

  reinstall_all-IsCounted :
      (remove_na : Bool) (available_q ps : List Package)
      → IsCounted (reinstall_all w remove_na available_q ps)
  reinstall_all-IsCounted remove_na available_q [] = refl
  reinstall_all-IsCounted remove_na available_q (p ∷ ps) =
      count_marked-IsCounted (reinstall_loop w remove_na available_q (p ∷ ps))
        (reinstall_loop-count remove_na available_q (p ∷ ps))

  reinstall-IsCounted :
      (pkg_spec : String) (old new neq : Option String) (remove_na : Bool)
      → IsCounted (reinstall w pkg_spec old new neq remove_na)
  unfolding reinstall
  reinstall-IsCounted pkg_spec old new neq remove_na =
      let q = (w.best_solution pkg_spec).query in
      reinstall_all-IsCounted remove_na (run w.sack (available_from w q new neq))
        (installed_from w q old)

  downgrade_loop-IsClean :
      (strict : Bool) (available_pkgs : Query) (pkg_names : List String)
      → let r = downgrade_loop w strict available_pkgs pkg_names in IsClean (r.0, marked r.1)
  unfolding downgrade_loop
  downgrade_loop-IsClean strict available_pkgs [] = refl
  downgrade_loop-IsClean strict available_pkgs (pkg_name ∷ pkg_names) =
      elim (Bool-cases
        (has_any w.sack (λ p. w.downgrades available_pkgs p && (p.name == pkg_name)))) [
          | inl x ↦ rw (downgrade_loop, x) tt
          | inr x ↦ rw (downgrade_loop, x) (downgrade_loop-IsClean strict available_pkgs pkg_names)
        ]

  downgrade-IsClean : (pkg_spec : String) → IsClean (downgrade w pkg_spec)
  unfolding downgrade downgrade_to
  downgrade-IsClean pkg_spec =
      let q = (w.best_solution pkg_spec).query in
      let q_installed = installed (λ p. names w (available q) p.name) in
      let r = downgrade_loop w false (available q) (w.query_names q_installed) in
      if-either IsClean (not (has_any w.sack q)) ([], failed (package_not_found no_match))
        (if not (has_any w.sack q_installed)
          then ([], failed (packages_not_installed no_match))
          else (r.0, marked r.1))
        refl
        (if-either IsClean (not (has_any w.sack q_installed))
          ([], failed (packages_not_installed no_match)) (r.0, marked r.1) refl
          (downgrade_loop-IsClean false (available q) (w.query_names q_installed)))

  upgrade_all-IsClean : (reponame : Option String) → IsClean (upgrade_all w reponame)
  unfolding upgrade_all upgrade_internal
  upgrade_all-IsClean reponame = tt

  sync_all-IsClean : (sltrs : List Selector) → IsClean (sync_all w sltrs)
  sync_all-IsClean [] = refl
  sync_all-IsClean (sltr ∷ sltrs) = tt

  distro_sync-IsClean : (pkg_spec : Option String) → IsClean (distro_sync w pkg_spec)
  unfolding distro_sync
  distro_sync-IsClean none = tt
  distro_sync-IsClean (some pkg_spec) = sync_all-IsClean (w.sync_selectors pkg_spec)

  -- A marking operation that raises an error, or that returns that it has marked none, has asked
  -- the goal for nothing; those that return a count return the number of what they have asked for.
  pub perform-Promised : (op : Operation) → Promised op (perform op)
  perform-Promised (package_downgrade_op pkg strict) = package_downgrade-IsCounted w pkg strict
  perform-Promised (package_install_op pkg strict) = package_install-IsClean w pkg strict
  perform-Promised (package_reinstall_op pkg) = package_reinstall-IsCounted w pkg
  perform-Promised (package_remove_op pkg) = package_remove-IsCounted w pkg
  perform-Promised (package_upgrade_op pkg) = package_upgrade-IsCounted w pkg
  perform-Promised (upgrade_op pkg_spec reponame) = upgrade-IsClean w pkg_spec reponame
  perform-Promised (install_op pkg_spec reponame strict) = install-IsClean pkg_spec reponame strict
  perform-Promised (remove_op pkg_spec reponame) = remove-IsCounted pkg_spec reponame
  perform-Promised (reinstall_op pkg_spec old new neq remove_na) =
      reinstall-IsCounted pkg_spec old new neq remove_na
  perform-Promised (downgrade_op pkg_spec) = downgrade-IsClean pkg_spec
  perform-Promised (upgrade_all_op reponame) = upgrade_all-IsClean reponame
  perform-Promised (distro_sync_op pkg_spec) = distro_sync-IsClean pkg_spec
