-- ===== src/Transaction/Goal/Result.antt =====
-- What `_goal2transaction` gives: when it is an exception, the packages it installs and the links.
use dnf.Base.{
  String, Bool, true, ◌&&◌, ◌||◌, Option, none, some, List, [], ◌∷◌, ◌++◌, ◌≡◌, refl, arith, sym,
  subst, ◌∙◌, append-nil, Option-cases, List-cases, Bool-cases, inl, inr, ◌==◌, ℕ_eq, String_eq,
  if◌then◌else◌,
}
use dnf.Transaction.{
  Reason, Package, Items, install_set, downgrade, downgraded, reinstall, reinstalled, upgrade,
  upgraded, remove, add_downgrade, add_reinstall, add_upgrade, add_remove, add_install,
  user_if_unset,
}
use dnf.Transaction.Goal.{
  Goal, for_each, downgrade_step, reinstall_step, install_step, upgrade_step, erase_step, and_then,
  goal2transaction, reinstalled_first, pick_upgraded, kept_obsoleted, best_reason, install_reason,
  keep_reason, set_reason, remaining,
}
use dnf.Transaction.Links.{
  IsLinked, IsLinked-append, install_set-append, IsLinked-new, install_set-new,
  IsLinked-add_install, install_set-add_install, IsLinked-replace, install_set-replace,
}
use dnf.Transaction.Goal.Loops.{
  is_some, is_cons, snoc-is_cons, all, and-true, Adds, Adds-trans, gather-each, gather-nil,
  Adds-some, for_each-Adds, for_each-is_some, always-is_some,
}

module _ (history_reason : String → String → Reason) (goal : Goal) where
  -- Does a package obsolete one?
  abbrev pub obsoletes_any : Package → Bool
  obsoletes_any p = is_cons (goal.obsoleted_by_package p)

  downgrade_step-Adds :
      (p : Package) (a b : Items)
      → downgrade_step history_reason goal p a ≡ some b
      → Adds (p ∷ []) a b
  unfolding downgrade_step add_downgrade
  downgrade_step-Adds p a b e = elim (List-cases (goal.obsoleted_by_package p)) [
    | inl n ↦ ground (arith, e, n)
    | inr (old, others, c) ↦ Adds-some (p ∷ []) a _ b (rw (c, downgrade_step) at e) (
      IsLinked-replace history_reason downgrade downgraded p old others a refl refl,
      install_set-replace history_reason downgrade downgraded p old others a refl refl,
    )
  ]

  reinstall_step-Adds :
      (p : Package) (a b : Items)
      → reinstall_step history_reason goal p a ≡ some b
      → Adds (p ∷ []) a b
  unfolding reinstall_step add_reinstall
  reinstall_step-Adds p a b e =
      elim (List-cases (reinstalled_first p.nevra [] (goal.obsoleted_by_package p))) [
        | inl n ↦ ground (arith, e, n)
        | inr (old, others, c) ↦ Adds-some (p ∷ []) a _ b (rw (c, reinstall_step) at e) (
          IsLinked-replace history_reason reinstall reinstalled p old others a refl refl,
          install_set-replace history_reason reinstall reinstalled p old others a refl refl,
        )
      ]

  add_install-Adds :
      (p : Package) (obs : List Package) (reason : Option Reason) (a : Items)
      → Adds (p ∷ []) a (add_install history_reason p obs reason a)
  add_install-Adds p obs reason a = (
    IsLinked-add_install history_reason p obs reason a,
    install_set-add_install history_reason p obs reason a,
  )

  install_step-Adds :
      (p : Package) (a b : Items)
      → install_step history_reason goal p a ≡ some b
      → Adds (p ∷ []) a b
  unfolding install_step
  install_step-Adds p a b e =
      let obs = kept_obsoleted history_reason goal p (goal.obsoleted_by_package p) in
      Adds-some (p ∷ []) a _ b e (
        add_install-Adds p obs
          (some (best_reason history_reason goal (install_reason history_reason goal p) obs)) a)

  upgrade_step-Adds :
      (p : Package) (a b : Items)
      → upgrade_step history_reason goal p a ≡ some b
      → Adds (p ∷ []) a b
  unfolding upgrade_step add_upgrade
  upgrade_step-Adds p a b e = elim (Option-cases (pick_upgraded p (goal.obsoleted_by_package p))) [
    | inl n ↦ ground (arith, e, n)
    | inr ((old, obs), c) ↦ elim (Bool-cases (goal.in_installonly_query p)) [
      | inl t ↦
          Adds-some (p ∷ []) a _ b (rw (c, t, upgrade_step) at e)
            (add_install-Adds p (kept_obsoleted history_reason goal p obs) none a)
      | inr t ↦ Adds-some (p ∷ []) a _ b (rw (c, t, upgrade_step) at e) (
        IsLinked-replace history_reason upgrade upgraded p old
            (kept_obsoleted history_reason goal p obs) a refl refl,
        install_set-replace history_reason upgrade upgraded p old
            (kept_obsoleted history_reason goal p obs) a refl refl,
      )
    ]
  ]

  keep_reason-Adds :
      (ps : List Package) (a : Items) → Adds [] a (keep_reason history_reason goal ps a)
  unfolding keep_reason set_reason
  keep_reason-Adds [] a = (λ l. l, sym (append-nil (install_set a)))
  keep_reason-Adds (p ∷ ps) a =
      (λ l. IsLinked-append a _ l (tt, λ e. ground (arith, e)), install_set-append a _)

  erase_step-Adds :
      (p : Package) (a b : Items) → erase_step history_reason goal p a ≡ some b → Adds [] a b
  unfolding erase_step add_remove
  erase_step-Adds p a b e = Adds-some [] a _ b e (
      Adds-trans [] [] a (keep_reason history_reason goal (remaining history_reason goal p) a) _
        (keep_reason-Adds (remaining history_reason goal p) a)
        (
          λ l.
              IsLinked-new history_reason p remove
                (some (user_if_unset history_reason (goal.goal_reason p))) [] _ l tt
                (λ r. ground (arith, r)),
          install_set-new history_reason p remove
              (some (user_if_unset history_reason (goal.goal_reason p))) [] _,
        ))

  abbrev pub new_packages : List Package
  new_packages =
      ((goal.list_downgrades ++ goal.list_reinstalls) ++ goal.list_installs) ++ goal.list_upgrades

  each-Adds :
      (step : Package → Items → Option Items)
      → ((p : Package) (a b : Items) → step p a ≡ some b → Adds (p ∷ []) a b)
      → (ps : List Package) (a b : Items) → for_each step ps a ≡ some b
      → Adds ps a b
  each-Adds step h ps a b e =
      subst (λ l. Adds l a b) (gather-each ps) (for_each-Adds step (λ p. p ∷ []) h ps a b e)

  erasures-Adds :
      (a b : Items)
      → for_each (erase_step history_reason goal) goal.list_erasures a ≡ some b
      → Adds [] a b
  erasures-Adds a b e =
      subst (λ l. Adds l a b) (gather-nil goal.list_erasures)
        (for_each-Adds (erase_step history_reason goal) (λ p. []) erase_step-Adds goal.list_erasures
          a b e)

  and_then-Adds :
      (ps qs : List Package) (o : Option Items) (loop : Items → Option Items) (a : Items)
      → ((b : Items) → o ≡ some b → Adds ps a b)
      → ((b c : Items) → loop b ≡ some c → Adds qs b c)
      → (c : Items) → and_then history_reason goal o loop ≡ some c
      → Adds (ps ++ qs) a c
  and_then-Adds ps qs none loop a h k c e = ground (arith, e)
  and_then-Adds ps qs (some b) loop a h k c e = Adds-trans ps qs a b c (h b refl) (k b c e)

  -- Where the goal is made into a transaction, the packages that appear on the system are those of
  -- the items before, then the downgrades, the reinstalls, the installs and the upgrades; and if
  -- each item was linked only to earlier items that bring packages, and to at least one where it is
  -- replaced, it still is.
  pub goal2transaction-Adds :
      (a b : Items)
      → goal2transaction history_reason goal a ≡ some b
      → (IsLinked a → IsLinked b) × (install_set b ≡ install_set a ++ new_packages)
  unfolding goal2transaction
  goal2transaction-Adds a b e =
      subst (λ l. Adds l a b) (append-nil new_packages)
        (and_then-Adds new_packages [] _ _ a
          (and_then-Adds ((goal.list_downgrades ++ goal.list_reinstalls) ++ goal.list_installs)
            goal.list_upgrades _ _ a
            (and_then-Adds (goal.list_downgrades ++ goal.list_reinstalls) goal.list_installs _ _ a
              (and_then-Adds goal.list_downgrades goal.list_reinstalls _ _ a
                (each-Adds (downgrade_step history_reason goal) downgrade_step-Adds
                  goal.list_downgrades a)
                (each-Adds (reinstall_step history_reason goal) reinstall_step-Adds
                  goal.list_reinstalls))
              (each-Adds (install_step history_reason goal) install_step-Adds goal.list_installs))
            (each-Adds (upgrade_step history_reason goal) upgrade_step-Adds goal.list_upgrades))
          erasures-Adds b e)

  reinstalled_first-is_cons :
      (nevra : String) (acc obs : List Package)
      → is_cons (reinstalled_first nevra acc obs) ≡ (is_cons acc || is_cons obs)
  unfolding reinstalled_first
  reinstalled_first-is_cons nevra acc [] = ground arith
  reinstalled_first-is_cons nevra acc (o ∷ obs) = ground (
    arith,
    reinstalled_first-is_cons nevra (if o.nevra == nevra then o ∷ acc else acc ++ o ∷ []) obs,
    snoc-is_cons acc o,
  )

  downgrade_step-is_some :
      (p : Package) (a : Items) → is_some (downgrade_step history_reason goal p a) ≡ obsoletes_any p
  unfolding downgrade_step
  downgrade_step-is_some p a = ground arith

  reinstall_step-is_some :
      (p : Package) (a : Items) → is_some (reinstall_step history_reason goal p a) ≡ obsoletes_any p
  unfolding reinstall_step
  reinstall_step-is_some p a =
      ground (arith, reinstalled_first-is_cons p.nevra [] (goal.obsoleted_by_package p))

  upgrade_step-is_some :
      (p : Package) (a : Items) → is_some (upgrade_step history_reason goal p a) ≡ obsoletes_any p
  unfolding upgrade_step pick_upgraded
  upgrade_step-is_some p a = ground arith

  and_then-is_some :
      (o : Option Items) (loop : Items → Option Items) (x y : Bool)
      → is_some o ≡ x
      → ((a : Items) → is_some (loop a) ≡ y)
      → is_some (and_then history_reason goal o loop) ≡ (x && y)
  and_then-is_some none loop x y h k = ground (arith, h)
  and_then-is_some (some a) loop x y h k = ground (arith, h, k a)

  -- The goal is made into a transaction, without an exception, exactly when every downgrade, reinstall
  -- and upgrade of the goal obsoletes some package.
  pub goal2transaction-is_some :
      (a : Items)
      → is_some (goal2transaction history_reason goal a) ≡ (
          all obsoletes_any goal.list_downgrades
          && all obsoletes_any goal.list_reinstalls
          && all obsoletes_any goal.list_upgrades)
  unfolding goal2transaction install_step erase_step
  goal2transaction-is_some a =
      and_then-is_some _ _ _ true
        (and_then-is_some _ _ _ (all obsoletes_any goal.list_upgrades)
          (and_then-is_some _ _ _ true
            (and_then-is_some _ _ (all obsoletes_any goal.list_downgrades)
              (all obsoletes_any goal.list_reinstalls)
              (for_each-is_some (downgrade_step history_reason goal) obsoletes_any
                downgrade_step-is_some goal.list_downgrades a)
              (for_each-is_some (reinstall_step history_reason goal) obsoletes_any
                reinstall_step-is_some goal.list_reinstalls))
            (λ b.
              always-is_some (install_step history_reason goal) (λ p c. refl) goal.list_installs b))
          (for_each-is_some (upgrade_step history_reason goal) obsoletes_any upgrade_step-is_some
            goal.list_upgrades))
        (λ b. always-is_some (erase_step history_reason goal) (λ p c. refl) goal.list_erasures b)
      ∙ and-true (all obsoletes_any goal.list_downgrades) (all obsoletes_any goal.list_reinstalls)
          (all obsoletes_any goal.list_upgrades)
