-- ===== src/Marks/Autoremove/Protected.antt =====
-- What `autoremove` leaves alone.
use dnf.Base.{
  String, Bool, true, false, ◌&&◌, List, [], ◌∷◌, any, All, ℕ_eq, String_eq, ◌≡◌, refl, arith, sym,
  ◌∙◌, All-imp, Bool-cases, inl, inr,
}
use dnf.Comps.Solver.{World}
use dnf.Marks.{Package, Query, run, Setting}
use dnf.Marks.Queries.{All-found, All-every}
use dnf.Marks.Packages.{package_remove}
use dnf.Marks.Groups.Asks.{collect, erased_by}
use dnf.Marks.GroupSpecs.{Found, State}
use dnf.Marks.Autoremove.{
  Unneeded, is_protected, protected, protected_found, remove_each, autoremove_all, autoremove,
}

-- Every package that a query finds passes a test, if those of the sack that it holds of do.
run-All :
    (P : Package → Type 0) (q : Query) (sack : List Package)
    → All (λ p. q p ≡ true → P p) sack
    → All P (run sack q)
run-All P q [] h = tt
run-All P q (p ∷ sack) h = elim (Bool-cases (q p)) [
  | inl x ↦ rw x (h.0 x, run-All P q sack h.1)
  | inr x ↦ rw x (run-All P q sack h.1)
]

any-run : (t q : Query) (sack : List Package) → any t (run sack q) ≡ any (λ p. q p && t p) sack
any-run t q [] = refl
any-run t q (p ∷ sack) = elim (Bool-cases (q p)) [
  | inl x ↦ rw (x, any-run t q sack) refl
  | inr x ↦ rw (x, any-run t q sack) refl
]

module _ (world : World) (w : Setting) (u : Unneeded) (search_installed : String → Found) where
  collect-remove_each :
      (pkgs : List Package) → collect erased_by (remove_each world w u search_installed pkgs) ≡ pkgs
  unfolding remove_each package_remove
  collect-remove_each [] = refl
  collect-remove_each (pkg ∷ pkgs) = rw (collect-remove_each pkgs) refl

  module _ (same : (p : Package) → w.equal p p ≡ true)
      (keeps : (p : Package)
        → is_protected world w u search_installed p ≡ true
        → u.unneeded_extra_userinstalled (protected world w u search_installed) p ≡ false) where
    abbrev pub IsFree : Package → Type 0
    IsFree p = is_protected world w u search_installed p ≡ false

    extra-IsFree :
        (p : Package)
        → u.unneeded_extra_userinstalled (protected world w u search_installed) p ≡ true
        → IsFree p
    extra-IsFree p e = ground (arith, e, keeps p)

    -- Where no protected package is among the unneeded ones, none is erased.
    unneeded-IsFree :
        (p : Package)
        → ((q : Query) → any q w.sack ≡ false → q p ≡ false)
        → protected_found world w u search_installed ≡ false
        → u.unneeded p ≡ true
        → IsFree p
    unneeded-IsFree p found none_found e =
        let unneeded_pkgs = run w.sack u.unneeded in
        let is_found = λ (pkg : Package). any (w.equal pkg) unneeded_pkgs in
        ground (
          arith,
          e,
          same p,
          found (λ pkg. is_protected world w u search_installed pkg && is_found pkg)
              (sym (any-run is_found (is_protected world w u search_installed) w.sack)
                ∙ none_found),
          any-run (w.equal p) u.unneeded w.sack,
          found (λ x. u.unneeded x && w.equal p x),
        )

    -- Without arguments, no protected package is erased: where packages are equal to themselves, and
    -- what libdnf says is unneeded besides the packages that it is given as wanted has none of them.
    pub autoremove-protected :
        (forms : Bool) (s : State)
        → All IsFree (collect erased_by (autoremove world w u search_installed forms [] [] [] s).2)
    unfolding autoremove autoremove_all
    autoremove-protected forms s = elim (Bool-cases (protected_found world w u search_installed)) [
      | inl x ↦
          rw
            (
              x,
              collect-remove_each (
                  run w.sack
                    (u.unneeded_extra_userinstalled (protected world w u search_installed))),
            )
            (run-All IsFree (u.unneeded_extra_userinstalled (protected world w u search_installed))
              w.sack (All-every _ extra-IsFree w.sack))
      | inr x ↦
          rw (x, collect-remove_each (run w.sack u.unneeded))
            (run-All IsFree u.unneeded w.sack (
              All-imp w.sack (λ p found. unneeded-IsFree p found x)
                (All-found w.sack w.sack (λ q e. e))))
    ]
