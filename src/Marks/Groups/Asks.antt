-- ===== src/Marks/Groups/Asks.antt =====
-- What the loops over the lists of a bunch ask for: they erase nothing.
use dnf.Base.{
  String, Bool, true, false, not, Option, none, List, [], ◌∷◌, ◌++◌, map, All, String_eq, ◌≡◌, refl,
  ap, sym, arith, Bool-cases, Option-cases, inl, inr, append_assoc, All-append,
}
use dnf.Comps.{Entry, entry_name, TransactionBunch}
use dnf.Marks.{
  Package, Query, no_package, installed, has_any, run, Ask, goal_install, goal_upgrade,
  goal_distupgrade, goal_distupgrade_all, goal_erase, set_dependency, group_member, no_match,
  already_installed, by_packages, by_condition, Setting,
}
use dnf.Marks.Multiarch.{install_multiarch, with_obsoletes, of_packages, query_matches_installed}
use dnf.Marks.Groups.{
  no_match_of, entry_requires, Step, trans_install, trans_upgrade, trans_remove, matches,
  install_asks, step_asks, step_remove, trans_loop, trans_loops,
}

-- The packages that the goal is asked to erase, and those whose reason becomes dependency.
abbrev pub erased_by : Ask → List Package
erased_by (goal_erase p clean_deps) = p ∷ []
erased_by _ = []

abbrev pub freed_by : Ask → List Package
freed_by (set_dependency p) = p ∷ []
freed_by _ = []

abbrev pub collect : (Ask → List Package) → List Ask → List Package
collect f [] = []
collect f (a ∷ asks) = f a ++ collect f asks

pub collect-append :
    (f : Ask → List Package) (xs ys : List Ask)
    → collect f (xs ++ ys) ≡ collect f xs ++ collect f ys
collect-append f [] ys = refl
collect-append f (x ∷ xs) ys =
    rw (collect-append f xs ys) (sym (append_assoc (f x) (collect f xs) (collect f ys)))

module _ {A : Type 0} where
  pub collect-none :
      (f : Ask → List Package) (g : A → Ask)
      → ((a : A) → f (g a) ≡ [])
      → (xs : List A) → collect f (map g xs) ≡ []
  collect-none f g h [] = refl
  collect-none f g h (x ∷ xs) = rw (h x) (collect-none f g h xs)

pub collect-all :
    (f : Ask → List Package) (g : Package → Ask)
    → ((p : Package) → f (g p) ≡ p ∷ [])
    → (xs : List Package) → collect f (map g xs) ≡ xs
collect-all f g h [] = refl
collect-all f g h (x ∷ xs) = rw (h x) (ap (λ l. x ∷ l) (collect-all f g h xs))

-- Only the last step erases or changes reasons.
abbrev pub is_late : Ask → Bool
is_late (goal_erase p clean_deps) = true
is_late (set_dependency p) = true
is_late _ = false

pub not_late-erased : (a : Ask) → is_late a ≡ false → erased_by a ≡ []
not_late-erased (goal_install s o) e = refl
not_late-erased (goal_upgrade q) e = refl
not_late-erased (goal_distupgrade s) e = refl
not_late-erased goal_distupgrade_all e = refl
not_late-erased (goal_erase p c) e = ground (arith, e)
not_late-erased (set_dependency p) e = refl
not_late-erased (group_member n) e = refl
not_late-erased (no_match n a) e = refl
not_late-erased (already_installed p) e = refl

pub not_late-freed : (a : Ask) → is_late a ≡ false → freed_by a ≡ []
not_late-freed (goal_install s o) e = refl
not_late-freed (goal_upgrade q) e = refl
not_late-freed (goal_distupgrade s) e = refl
not_late-freed goal_distupgrade_all e = refl
not_late-freed (goal_erase p c) e = refl
not_late-freed (set_dependency p) e = ground (arith, e)
not_late-freed (group_member n) e = refl
not_late-freed (no_match n a) e = refl
not_late-freed (already_installed p) e = refl

abbrev pub IsEarly : List Ask → Type 0
IsEarly asks = All (λ a. is_late a ≡ false) asks

pub collect-early :
    (f : Ask → List Package)
    → ((a : Ask) → is_late a ≡ false → f a ≡ [])
    → (asks : List Ask) → IsEarly asks
    → collect f asks ≡ []
collect-early f h [] e = refl
collect-early f h (a ∷ asks) e = rw (h a e.0) (collect-early f h asks e.1)

IsEarly-append : (xs ys : List Ask) → IsEarly xs → IsEarly ys → IsEarly (xs ++ ys)
IsEarly-append xs ys h k = All-append (λ a. is_late a ≡ false) xs ys h k

IsEarly-map :
    {A : Type 0} (g : A → Ask)
    → ((a : A) → is_late (g a) ≡ false)
    → (xs : List A) → IsEarly (map g xs)
IsEarly-map g h [] = tt
IsEarly-map g h (x ∷ xs) = (h x, IsEarly-map g h xs)

module _ (w : Setting) where
  install_multiarch-IsEarly :
      (query : Query) (reponame : Option String) (strict : Bool)
      → IsEarly (install_multiarch w query reponame strict).0
  unfolding install_multiarch
  install_multiarch-IsEarly query reponame strict =
      let m = query_matches_installed w query in
      let ask = λ (packages : List Package).
        goal_install (by_packages (with_obsoletes w (of_packages w packages)) reponame)
          (not strict) in
      IsEarly-append (map already_installed m.0) (map ask m.1)
        (IsEarly-map already_installed (λ p. refl) m.0) (IsEarly-map ask (λ p. refl) m.1)

  install_asks-IsEarly :
      (strict : Bool) (query : Query) (comps_pkg : Entry)
      → IsEarly (install_asks w strict query comps_pkg)
  unfolding install_asks install_multiarch
  install_asks-IsEarly strict query comps_pkg = elim (Option-cases (entry_requires comps_pkg)) [
    | inl x ↦ elim (Bool-cases w.multilib_all) [
      | inl y ↦ rw (install_asks, x, y) (install_multiarch-IsEarly query none strict)
      | inr y ↦ rw (install_asks, x, y) (refl, tt)
    ]
    | inr r ↦ elim (Bool-cases w.multilib_all) [
      | inl y ↦
          rw (install_asks, r.1, y)
            (IsEarly-append (map already_installed (run w.sack (installed query)))
              (goal_install (by_condition (entry_name comps_pkg) r.0) (not strict) ∷ [])
              (IsEarly-map already_installed (λ p. refl) (run w.sack (installed query))) (refl, tt))
      | inr y ↦ rw (install_asks, r.1, y) (refl, tt)
    ]
  ]

  step_asks-IsEarly :
      (fn : Step) (query : Query) (comps_pkg : Entry) → IsEarly (step_asks w fn query comps_pkg)
  step_asks-IsEarly (trans_install strict) query comps_pkg =
      install_asks-IsEarly strict query comps_pkg
  step_asks-IsEarly trans_upgrade query comps_pkg = (refl, tt)
  step_asks-IsEarly trans_remove query comps_pkg = tt

  trans_loop-IsEarly :
      (fn : Step) (attr : List Entry) (remove_query : Query) (asks : List Ask)
      → IsEarly asks
      → IsEarly (trans_loop w fn attr (remove_query, asks)).1
  unfolding trans_loop
  trans_loop-IsEarly fn [] r asks h = h
  trans_loop-IsEarly fn (comps_pkg ∷ attr) r asks h =
      let q = matches w comps_pkg in
      let asked = asks ++ step_asks w fn q comps_pkg in
      let member = group_member (entry_name comps_pkg) ∷ [] in
      let missed = no_match_of w comps_pkg ∷ [] in
      elim (Bool-cases (has_any w.sack q)) [
        | inl x ↦
            rw (trans_loop, x)
              (trans_loop-IsEarly fn attr (step_remove w fn q r) (asked ++ member) (
                IsEarly-append asked member
                  (IsEarly-append asks (step_asks w fn q comps_pkg) h
                    (step_asks-IsEarly fn q comps_pkg))
                  (refl, tt)))
        | inr x ↦
            rw (trans_loop, x)
              (trans_loop-IsEarly fn attr r (asks ++ missed)
                (IsEarly-append asks missed h (refl, tt)))
      ]

  pub trans_loops-IsEarly : (trans : TransactionBunch) → IsEarly (trans_loops w trans).1
  unfolding trans_loops
  trans_loops-IsEarly trans =
      let one = trans_loop w (trans_install true) trans.install (no_package, []) in
      let two = trans_loop w (trans_install false) trans.install_opt one in
      let three = trans_loop w trans_upgrade trans.upgrade two in
      trans_loop-IsEarly trans_remove trans.remove three.0 three.1 (
        trans_loop-IsEarly trans_upgrade trans.upgrade two.0 two.1 (
          trans_loop-IsEarly (trans_install false) trans.install_opt one.0 one.1
            (trans_loop-IsEarly (trans_install true) trans.install no_package [] tt)))
