-- ===== src/Marks/Subjects/Counts.antt =====
-- What is counted of the asks, and the operations on packages and `upgrade`.
use dnf.Base.{
  ℕ, zero, suc, ◌+◌, String, Bool, true, false, not, ◌&&◌, ◌||◌, Option, none, List, [], ◌∷◌, ◌++◌,
  map, any, length, ◌==◌, ℕ_eq, String_eq, if◌then◌else◌, ◌≡◌, refl, arith, Bool-cases,
  Option-cases, inl, inr,
}
use dnf.Marks.{
  Package, intersection, installed, has_any, run, by_packages, Ask, goal_install, goal_upgrade,
  goal_distupgrade, goal_distupgrade_all, goal_erase, already_installed, Setting,
}
use dnf.Marks.Multiarch.{query_matches_installed}
use dnf.Marks.Packages.{
  Marking, marked, failed, package_downgrade, package_install, package_reinstall, package_remove,
  package_upgrade, upgrade_internal, upgrade, from_system, names, least, greatest, installed_like,
  upgrade_found, not_implemented, package_not_found, packages_not_installed, marking_error,
  no_match, compare_least, compare_greatest, only, everything,
}

pub if-either :
    (P : Marking → Type 0) (b : Bool) (x y : Marking) → P x → P y → P (if b then x else y)
if-either P true x y h k = h
if-either P false x y h k = k

-- The number of packages and selectors that the goal is asked for.
abbrev pub asks_goal : Ask → ℕ
asks_goal (goal_install sltr is_optional) = 1
asks_goal (goal_upgrade query) = 1
asks_goal (goal_distupgrade sltr) = 1
asks_goal goal_distupgrade_all = 1
asks_goal (goal_erase p clean_deps) = 1
asks_goal _ = 0

abbrev pub goal_count : List Ask → ℕ
goal_count [] = 0
goal_count (a ∷ asks) = asks_goal a + goal_count asks

-- An operation that raises an error or has marked none has asked the goal for nothing.
abbrev pub IsClean : Marking → Type 0
IsClean (asks, failed f) = goal_count asks ≡ 0
IsClean (asks, marked zero) = goal_count asks ≡ 0
IsClean (asks, marked (suc n)) = Unit {0}

-- The number that is returned is that of what the goal is asked for.
abbrev pub IsCounted : Marking → Type 0
IsCounted (asks, failed f) = goal_count asks ≡ 0
IsCounted (asks, marked n) = goal_count asks ≡ n

pub IsCounted-IsClean : (m : Marking) → IsCounted m → IsClean m
IsCounted-IsClean (asks, failed f) h = h
IsCounted-IsClean (asks, marked zero) h = h
IsCounted-IsClean (asks, marked (suc n)) h = tt

-- The calls of the operations.
pub data Operation : Type 0 where
  package_downgrade_op package_install_op : Package → (strict : Bool) → Operation
  package_reinstall_op package_remove_op package_upgrade_op : Package → Operation
  upgrade_op : String → (reponame : Option String) → Operation
  install_op : String → (reponame : Option String) → (strict : Bool) → Operation
  remove_op : String → (reponame : Option String) → Operation
  reinstall_op :
      String
      → (old_reponame new_reponame new_reponame_neq : Option String) → (remove_na : Bool)
      → Operation
  downgrade_op : String → Operation
  upgrade_all_op : (reponame : Option String) → Operation
  distro_sync_op : (pkg_spec : Option String) → Operation

-- What an operation promises: of those that return a count, the count, and of the others that they
-- are clean.
abbrev pub Promised : Operation → Marking → Type 0
Promised (package_install_op pkg strict) m = IsClean m
Promised (upgrade_op pkg_spec reponame) m = IsClean m
Promised (install_op pkg_spec reponame strict) m = IsClean m
Promised (downgrade_op pkg_spec) m = IsClean m
Promised (upgrade_all_op reponame) m = IsClean m
Promised (distro_sync_op pkg_spec) m = IsClean m
Promised _ m = IsCounted m

pub goal_count-append : (xs ys : List Ask) → goal_count (xs ++ ys) ≡ goal_count xs + goal_count ys
goal_count-append [] ys = omega arith
goal_count-append (x ∷ xs) ys = omega (arith, goal_count-append xs ys)

module _ {A : Type 0} where
  pub goal_count-map :
      (f : A → Ask)
      → ((a : A) → asks_goal (f a) ≡ 1)
      → (xs : List A) → goal_count (map f xs) ≡ length xs
  goal_count-map f h [] = refl
  goal_count-map f h (x ∷ xs) = omega (arith, h x, goal_count-map f h xs)

  pub goal_count-none :
      (f : A → Ask) → ((a : A) → asks_goal (f a) ≡ 0) → (xs : List A) → goal_count (map f xs) ≡ 0
  goal_count-none f h [] = refl
  goal_count-none f h (x ∷ xs) = omega (arith, h x, goal_count-none f h xs)

module _ (w : Setting) where
  compare_least-IsCounted :
      (pkg : Package) (strict : Bool) (ps : List Package)
      → IsCounted (compare_least w pkg strict ps)
  compare_least-IsCounted pkg strict [] = refl
  compare_least-IsCounted pkg strict (p ∷ ps) =
      if-either IsCounted (w.lower pkg (least w p ps))
        (goal_install (by_packages (only w pkg) none) (not strict) ∷ [], marked 1) ([], marked 0)
        (omega arith) refl

  pub package_downgrade-IsCounted :
      (pkg : Package) (strict : Bool) → IsCounted (package_downgrade w pkg strict)
  unfolding package_downgrade
  package_downgrade-IsCounted pkg strict =
      if-either IsCounted (from_system w pkg) ([], failed not_implemented)
        (compare_least w pkg strict (run w.sack (installed_like w pkg))) refl
        (compare_least-IsCounted pkg strict (run w.sack (installed_like w pkg)))

  pub package_install-IsClean :
      (pkg : Package) (strict : Bool) → IsClean (package_install w pkg strict)
  unfolding package_install
  package_install-IsClean pkg strict =
      let q =
        λ (p : Package). (p.name == pkg.name) && w.same_evr p.evr pkg.evr && (p.arch == pkg.arch) in
      let found = query_matches_installed w q in
      if-either IsClean (any (w.equal pkg) found.0) (already_installed pkg ∷ [], marked 1)
        (if not (any (λ l. any (w.equal pkg) l) found.1)
          then ([], failed (package_not_found no_match))
          else (goal_install (by_packages (only w pkg) none) (not strict) ∷ [], marked 1))
        tt
        (if-either IsClean (not (any (λ l. any (w.equal pkg) l) found.1))
          ([], failed (package_not_found no_match))
          (goal_install (by_packages (only w pkg) none) (not strict) ∷ [], marked 1) refl tt)

  pub package_reinstall-IsCounted : (pkg : Package) → IsCounted (package_reinstall w pkg)
  unfolding package_reinstall
  package_reinstall-IsCounted pkg =
      if-either IsCounted
        (has_any w.sack (
          installed
            (λ p. (p.name == pkg.name) && w.same_evr p.evr pkg.evr && (p.arch == pkg.arch))))
        (goal_install (by_packages (only w pkg) none) false ∷ [], marked 1)
        ([], failed (marking_error no_match)) (omega arith) refl

  pub package_remove-IsCounted : (pkg : Package) → IsCounted (package_remove w pkg)
  unfolding package_remove
  package_remove-IsCounted pkg = omega arith

  compare_greatest-IsCounted :
      (pkg : Package) (ps : List Package) → IsCounted (compare_greatest w pkg ps)
  compare_greatest-IsCounted pkg [] = refl
  compare_greatest-IsCounted pkg (p ∷ ps) =
      if-either IsCounted (w.lower (greatest w p ps) pkg) (goal_upgrade (only w pkg) ∷ [], marked 1)
        ([], marked 0) (omega arith) refl

  pub package_upgrade-IsCounted : (pkg : Package) → IsCounted (package_upgrade w pkg)
  unfolding package_upgrade
  package_upgrade-IsCounted pkg = elim (Bool-cases (from_system w pkg)) [
    | inl x ↦ rw (package_upgrade, x) refl
    | inr x ↦ elim (Bool-cases (pkg.arch == "src")) [
      | inl y ↦ rw (package_upgrade, x, y) refl
      | inr y ↦
          elim (Bool-cases (
            w.obsoletes
            && has_any w.sack
                (intersection (only w pkg) (w.obsoleting (installed (everything w)))))) [
                  | inl z ↦ rw (package_upgrade, x, y, z) (omega arith)
                  | inr z ↦ rw (package_upgrade, x, y, z) (compare_greatest-IsCounted pkg _)
                ]
    ]
  ]

  -- `upgrade` raises before it asks, and otherwise returns 1.
  pub upgrade-IsClean :
      (pkg_spec : String) (reponame : Option String) → IsClean (upgrade w pkg_spec reponame)
  unfolding upgrade upgrade_internal
  upgrade-IsClean pkg_spec reponame =
      let solution = w.best_solution pkg_spec in
      elim (Bool-cases (not (has_any w.sack solution.query))) [
        | inl x ↦ rw (upgrade, x) refl
        | inr x ↦ elim (Bool-cases (w.is_glob_pattern pkg_spec || not solution.is_nevra)) [
          | inl y ↦ rw (upgrade, x, y) tt
          | inr y ↦ elim (Option-cases solution.name) [
            | inl z ↦ rw (upgrade, x, y, z) tt
            | inr n ↦
                rw (upgrade, x, y, n.1)
                  (if-either IsClean
                    (not (
                        w.obsoletes
                        && has_any w.sack
                            (intersection solution.query (w.obsoleting (installed (everything w)))))
                      && not (names w (installed (everything w)) n.0))
                    ([], failed (packages_not_installed no_match))
                    (upgrade_found w solution reponame) refl tt)
          ]
        ]
      ]
