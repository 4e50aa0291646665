-- ===== src/Marks/Groups/Removed.antt =====
-- Which packages are removed with their groups.
use dnf.Base.{
  Bool, true, false, not, ◌&&◌, ◌||◌, List, [], ◌∷◌, ◌++◌, map, any, All-imp, ◌==◌, String_eq, ◌≡◌,
  refl, sym, arith, ◌∙◌, Bool-cases, inl, inr, append-nil,
}
use dnf.Marks.Queries.{All-found, run-cong, run-none, All-every}
use dnf.Comps.{Entry, entry_name, TransactionBunch}
use dnf.Marks.{
  Package, Query, no_package, intersection, difference, installed, has_any, run, Ask, goal_erase,
  set_dependency, group_member, Setting,
}
use dnf.Marks.Groups.{
  no_match_of, Step, trans_install, trans_upgrade, trans_remove, matches, step_asks, step_remove,
  trans_loop, trans_loops, remove_if_unneeded, finalize_comps_trans,
}
use dnf.Marks.Groups.Asks.{
  collect, collect-append, collect-none, collect-all, collect-early, is_late, not_late-erased,
  not_late-freed, erased_by, freed_by, trans_loops-IsEarly,
}

module _ (w : Setting) where
  abbrev is_remove : Step → Bool
  is_remove trans_remove = true
  is_remove _ = false

  step_remove-or :
      (fn : Step) (query r : Query) (p : Package)
      → step_remove w fn query r p ≡ (r p || (is_remove fn && query p))
  step_remove-or (trans_install strict) query r p = ground arith
  step_remove-or trans_upgrade query r p = ground arith
  step_remove-or trans_remove query r p = refl

  module _ (p : Package) (found : (q : Query) → any q w.sack ≡ false → q p ≡ false) where
    trans_loop-removes :
        (fn : Step) (attr : List Entry) (r : Query) (asks : List Ask)
        → (trans_loop w fn attr (r, asks)).0 p
          ≡ (r p || (is_remove fn && any (λ e. matches w e p) attr))
    unfolding trans_loop
    trans_loop-removes fn [] r asks = ground arith
    trans_loop-removes fn (comps_pkg ∷ attr) r asks =
        let q = matches w comps_pkg in
        let asked = asks ++ step_asks w fn q comps_pkg in
        let member = group_member (entry_name comps_pkg) ∷ [] in
        elim (Bool-cases (has_any w.sack q)) [
          | inl x ↦
              rw
                (
                  trans_loop,
                  x,
                  trans_loop-removes fn attr (step_remove w fn q r) (asked ++ member),
                  step_remove-or fn q r p,
                )
                (ground arith)
          | inr x ↦
              rw
                (
                  trans_loop,
                  x,
                  trans_loop-removes fn attr r (asks ++ no_match_of w comps_pkg ∷ []),
                  found q x,
                )
                (ground arith)
        ]

    trans_loops-removes :
        (trans : TransactionBunch)
        → (trans_loops w trans).0 p ≡ any (λ e. matches w e p) trans.remove
    unfolding trans_loops
    trans_loops-removes trans =
        let one = trans_loop w (trans_install true) trans.install (no_package, []) in
        let two = trans_loop w (trans_install false) trans.install_opt one in
        let three = trans_loop w trans_upgrade trans.upgrade two in
        trans_loop-removes trans_remove trans.remove three.0 three.1
        ∙ rw
            (
              trans_loop-removes trans_upgrade trans.upgrade two.0 two.1,
              trans_loop-removes (trans_install false) trans.install_opt one.0 one.1,
              trans_loop-removes (trans_install true) trans.install no_package [],
            )
            (ground arith)

  -- What stays to be said of a package that the removed groups have.
  abbrev goes : Query → Query
  goes r p = installed r p && w.safe_to_remove (installed r) p && w.is_removable p.name

  abbrev stays : Query → Query
  stays r p = installed r p && not (w.safe_to_remove (installed r) p) && w.is_removable p.name

  abbrev history_query : Query → Query
  history_query r p = installed r p && w.is_removable p.name

  abbrev freed_query : Query → Query
  freed_query r = difference (history_query r) (w.safe_to_remove (installed r))

  abbrev erased_query : Query → Query
  erased_query r =
      intersection (installed r) (intersection (w.safe_to_remove (installed r)) (history_query r))

  abbrev erase : Package → Ask
  erase pkg = goal_erase pkg w.clean_requirements_on_remove

  remove_if_unneeded-erased :
      (r : Query) → collect erased_by (remove_if_unneeded w r) ≡ run w.sack (goes r)
  unfolding remove_if_unneeded
  remove_if_unneeded-erased r = elim (Bool-cases (has_any w.sack (installed r))) [
    | inl x ↦
        rw
          (
            remove_if_unneeded,
            x,
            collect-append erased_by (map set_dependency (run w.sack (freed_query r)))
                (map erase (run w.sack (erased_query r))),
            collect-none erased_by set_dependency (λ p. refl) (run w.sack (freed_query r)),
            collect-all erased_by erase (λ p. refl) (run w.sack (erased_query r)),
          )
          (run-cong (erased_query r) (goes r) w.sack (All-every _ (λ p. ground arith) w.sack))
    | inr x ↦
        rw (remove_if_unneeded, x)
          (sym (run-none (installed r) (goes r) w.sack (λ p e. ground (arith, e)) x))
  ]

  remove_if_unneeded-freed :
      (r : Query) → collect freed_by (remove_if_unneeded w r) ≡ run w.sack (stays r)
  unfolding remove_if_unneeded
  remove_if_unneeded-freed r = elim (Bool-cases (has_any w.sack (installed r))) [
    | inl x ↦
        rw
          (
            remove_if_unneeded,
            x,
            collect-append freed_by (map set_dependency (run w.sack (freed_query r)))
                (map erase (run w.sack (erased_query r))),
            collect-all freed_by set_dependency (λ p. refl) (run w.sack (freed_query r)),
            collect-none freed_by erase (λ p. refl) (run w.sack (erased_query r)),
            append-nil (run w.sack (freed_query r)),
          )
          (run-cong (freed_query r) (stays r) w.sack (All-every _ (λ p. ground arith) w.sack))
    | inr x ↦
        rw (remove_if_unneeded, x)
          (sym (run-none (installed r) (stays r) w.sack (λ p e. ground (arith, e)) x))
  ]

  collect-finalize :
      (f : Ask → List Package)
      → ((a : Ask) → is_late a ≡ false → f a ≡ [])
      → (trans : TransactionBunch)
      → collect f (finalize_comps_trans w trans)
        ≡ collect f (remove_if_unneeded w (trans_loops w trans).0)
  unfolding finalize_comps_trans
  collect-finalize f h trans =
      collect-append f (trans_loops w trans).1 (remove_if_unneeded w (trans_loops w trans).0)
      ∙ rw (collect-early f h (trans_loops w trans).1 (trans_loops-IsEarly w trans)) refl

  -- The packages that the groups to be removed have, and that no other group keeps.
  abbrev pub leaves : TransactionBunch → Query
  leaves trans p =
      any (λ e. matches w e p) trans.remove && (p.reponame == "@System") && w.is_removable p.name

  -- What libdnf says of a package that is to leave with the others.
  abbrev pub is_safe : TransactionBunch → Query
  is_safe trans p = w.safe_to_remove (installed (trans_loops w trans).0) p

  -- Of the installed packages that the groups to be removed have and that the history takes as
  -- removable, those that libdnf says are safe to remove are erased, in the order of the sack, and
  -- the others only become dependencies; no other package is erased or becomes one, whatever is
  -- installed or upgraded besides.
  pub finalize_comps_trans-removed :
      (trans : TransactionBunch)
      → (collect erased_by (finalize_comps_trans w trans)
          ≡ run w.sack (λ p. leaves trans p && is_safe trans p))
        × (collect freed_by (finalize_comps_trans w trans)
            ≡ run w.sack (λ p. leaves trans p && not (is_safe trans p)))
  finalize_comps_trans-removed trans =
      let r = (trans_loops w trans).0 in
      let same = All-found w.sack w.sack (λ q e. e) in
      (
        collect-finalize erased_by (λ a e. not_late-erased a e) trans
            ∙ remove_if_unneeded-erased r
            ∙ run-cong (goes r) (λ p. leaves trans p && is_safe trans p) w.sack
                (All-imp w.sack (λ p found. ground (arith, trans_loops-removes p found trans))
                  same),
        collect-finalize freed_by (λ a e. not_late-freed a e) trans
            ∙ remove_if_unneeded-freed r
            ∙ run-cong (stays r) (λ p. leaves trans p && not (is_safe trans p)) w.sack
                (All-imp w.sack (λ p found. ground (arith, trans_loops-removes p found trans))
                  same),
      )
