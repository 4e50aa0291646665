-- ===== src/Replay/Run/Named.antt =====
-- Which packages `run` asks the goal and the history for.
use dnf.Base.{
  ℕ, String, Bool, true, false, not, ◌&&◌, ◌||◌, none, some, List, [], ◌∷◌, filter, any, ◌==◌,
  String_eq, if◌then◌else◌, ◌≡◌, refl, arith, Bool-cases, inl, inr, All, All-append,
}
use dnf.Transaction.{Reason}
use dnf.Replay.Packages.{
  RpmObject, HistoryAction, Member, Message, Request, goal_install, goal_erase, set_reason,
  record_group, record_env, Package, Nevra, Setting, State, End, raised, returned, raise_or_warn,
  after, collect, ask, erase_all, already_installed, install_request, note_nevra, install_action,
  reinstall_action, erase_action, replay_parsed, replay_pkg_action, run_rpms, limit_repo, installed,
  available, reason_action, is_forward, is_backward, is_empty, same_na, same_evr,
}
use dnf.Replay.Groups.{
  Section, Known, CompsObject, groups_section, envs_section, replay_comps, run_comps,
}
use dnf.Replay.Run.{Arrays, CompsKnown, empty_state, run}
use dnf.Replay.Run.Branches.{
  do_action-cases, replay_pkg_action-cases, replay_comps-cases, collect-state,
}

-- The actions that install, that erase and that change a reason.
abbrev pub takes : String → Bool
takes action = is_forward action || (action == "Reinstall")

abbrev pub removes : (skip_unavailable : Bool) → String → Bool
removes skip_unavailable action =
    is_backward action && (not skip_unavailable || (action == "Removed"))

abbrev pub changes_reason : String → Bool
changes_reason action = action == "Reason Change"

abbrev pub is_named :
    (String → String → Bool) → (String → Bool) → String → List Nevra → Package → Bool
is_named same test action (n ∷ []) p = test action && (same_na n p && same_evr same n p)
is_named same test action _ p = false

module _ (w : Setting) where
  -- Is the package the one that an object names, and does its action pass the test?
  abbrev pub named : (String → Bool) → RpmObject → Package → Bool
  named test o p = elim o.action [
    | none ↦ false
    | some action ↦ elim o.nevra [
      | none ↦ false
      | some v ↦ is_named w.same_version test action (w.nevra_possibilities v) p
    ]
  ]

  -- The packages of a request are covered for what is done with them.
  abbrev pub Covered : ((String → Bool) → Package → Bool) → Request → Type 0
  Covered covers (goal_install packages is_optional) =
      All (λ p. covers takes p ≡ true) packages × (is_optional ≡ not w.strict)
  Covered covers (goal_erase p) =
      (p.is_installed ≡ true) × (covers (removes w.skip_unavailable) p ≡ true)
  Covered covers (set_reason p reason) = covers changes_reason p ≡ true
  Covered covers (record_group a id types members) = Unit
  Covered covers (record_env a id types members) = Unit

  -- An object of the list names the package.
  abbrev pub some_named : List RpmObject → (String → Bool) → Package → Bool
  some_named rpms test p = any (λ o. named test o p) rpms

module _ {A : Type 0} {P R : A → Type 0} (q : A → Bool) where
  filter-All : ((x : A) → q x ≡ true → P x → R x) → (xs : List A) → All P xs → All R (filter q xs)
  filter-All f [] h = tt
  filter-All f (x ∷ xs) h = elim (Bool-cases (q x)) [
    | inl e ↦ rw e (f x e h.0, filter-All f xs h.1)
    | inr e ↦ rw e (filter-All f xs h.1)
  ]

All-Unit : {A : Type 0} (xs : List A) → All (λ x. Unit {0}) xs
All-Unit [] = tt
All-Unit (x ∷ xs) = (tt, All-Unit xs)

limit_repo-All :
    (P : Package → Type 0) (repo_id : String) (query : List Package)
    → All P query
    → All P (limit_repo repo_id query)
unfolding limit_repo
limit_repo-All P repo_id query h =
    elim (Bool-cases (repo_id == "" || is_empty (filter (λ p. p.reponame == repo_id) query))) [
      | inl e ↦ rw (limit_repo, e) h
      | inr e ↦
          rw (limit_repo, e)
            (filter-All (λ p. (p.reponame == repo_id) || p.is_installed) (λ p x y. y) query h)
    ]

module _ (w : Setting) (covers : (String → Bool) → Package → Bool) where
  abbrev Kept : State → Type 0
  Kept s = All (Covered w covers) s.requests

  abbrev KeepsCovered : State → State × End → Type 0
  KeepsCovered s out = Kept s → Kept out.0

  ask-Kept : (r : Request) (s : State) → Covered w covers r → Kept s → Kept (ask r s)
  ask-Kept r s c k = All-append (Covered w covers) s.requests (r ∷ []) k (c, tt)

  raise_or_warn-Kept :
      (warn_only : Bool) (m : Message) (s : State) → KeepsCovered s (raise_or_warn warn_only m s)
  raise_or_warn-Kept true m s k = k
  raise_or_warn-Kept false m s k = k

  after-Kept :
      (out : State × End) (next : State → State × End)
      → Kept out.0
      → ((t : State) → Kept t → Kept (next t).0)
      → Kept (after out next).0
  after-Kept (s, raised m) next k f = k
  after-Kept (s, returned) next k f = f s k

  if-Kept : (b : Bool) (x y : State × End) → Kept x.0 → Kept y.0 → Kept (if b then x else y).0
  if-Kept true x y h k = h
  if-Kept false x y h k = k

  erase_all-Kept :
      (query : List Package) (s : State)
      → All (λ p. Covered w covers (goal_erase p)) query
      → Kept s
      → Kept (erase_all w query s)
  unfolding erase_all
  erase_all-Kept [] s h k = k
  erase_all-Kept (p ∷ query) s h k =
      erase_all-Kept query (ask (goal_erase p) s) h.1 (ask-Kept (goal_erase p) s h.0 k)

  abbrev CoveredFor : (String → Bool) → List Package → Type 0
  CoveredFor test query = All (λ p. covers test p ≡ true) query

  install_action-Kept :
      (action : String) (n : Nevra) (query_na query : List Package) (s : State)
      → CoveredFor takes query
      → KeepsCovered s (install_action w action n query_na query s)
  unfolding install_action
  install_action-Kept action n query_na query s h k =
      after-Kept _ (λ t. (ask (install_request w query) t, returned))
        (if-Kept
          ((action == "Install")
            && not (is_empty (installed query_na))
            && not (any (λ p. p.is_installonly) query_na))
          (raise_or_warn w.ignore_installed (already_installed n.name action) s) (s, returned)
          (raise_or_warn-Kept w.ignore_installed _ s k) k)
        (λ t x. ask-Kept (install_request w query) t (h, refl) x)

  reinstall_action-Kept :
      (action nevra : String) (query : List Package) (s : State)
      → CoveredFor takes query
      → KeepsCovered s (reinstall_action w action nevra query s)
  unfolding reinstall_action
  reinstall_action-Kept action nevra query s h k = elim (Bool-cases (is_empty (available query))) [
    | inl x ↦ rw (reinstall_action, x) (raise_or_warn-Kept w.skip_unavailable _ s k)
    | inr x ↦
        rw (reinstall_action, x)
          (ask-Kept _ s (filter-All (λ p. not p.is_installed) (λ p y z. z) query h, refl) k)
  ]

  erase_action-Kept :
      (action nevra : String) (query : List Package) (s : State)
      → ((not w.skip_unavailable || (action == "Removed")) ≡ true
          → CoveredFor (removes w.skip_unavailable) query)
      → KeepsCovered s (erase_action w action nevra query s)
  unfolding erase_action
  erase_action-Kept action nevra query s h k = elim (Bool-cases (is_empty (installed query))) [
    | inl x ↦ rw (erase_action, x) (raise_or_warn-Kept w.ignore_installed _ s k)
    | inr x ↦ elim (Bool-cases (not w.skip_unavailable || (action == "Removed"))) [
      | inl y ↦
          rw (erase_action, x, y)
            (erase_all-Kept (installed query) s
              (filter-All (λ p. p.is_installed) (λ p u v. (u, v)) query (h y)) k)
      | inr y ↦ rw (erase_action, x, y) k
    ]
  ]

  reason_action-Kept :
      (reason : Reason) (query : List Package) (s : State)
      → CoveredFor changes_reason query
      → KeepsCovered s (reason_action w reason query s)
  reason_action-Kept reason [] s h k = k
  reason_action-Kept reason (p ∷ query) s h k = ask-Kept (set_reason p reason) s h.0 k

  module _ (o : RpmObject)
      (by_object : (test : String → Bool) (p : Package)
        → named w test o p ≡ true
        → covers test p ≡ true) where
    matches-CoveredFor :
        (action nevra repo_id : String) (n : Nevra) (test : String → Bool)
        → o.action ≡ some action
        → o.nevra ≡ some nevra
        → w.nevra_possibilities nevra ≡ n ∷ []
        → test action ≡ true
        → CoveredFor test
            (limit_repo repo_id (filter (same_evr w.same_version n) (filter (same_na n) w.sack)))
    matches-CoveredFor action nevra repo_id n test x y z t = limit_repo-All _ repo_id _ (
        filter-All {P = λ p. same_na n p ≡ true} (same_evr w.same_version n)
          (λ p u v. by_object test p (rw (x, y, z, t) (ground (arith, u, v))))
          (filter (same_na n) w.sack)
          (filter-All {R = λ p. same_na n p ≡ true} (same_na n) (λ p u v. u) w.sack
            (All-Unit w.sack)))

    replay_parsed-Kept :
        (action nevra repo_id : String) (reason : Reason) (n : Nevra) (s : State)
        → o.action ≡ some action
        → o.nevra ≡ some nevra
        → w.nevra_possibilities nevra ≡ n ∷ []
        → KeepsCovered s (replay_parsed w action nevra repo_id reason n s)
    unfolding replay_parsed note_nevra
    replay_parsed-Kept action nevra repo_id reason n s x y z k =
        let query_na = filter (same_na n) w.sack in
        let query = limit_repo repo_id (filter (same_evr w.same_version n) query_na) in
        let noted = note_nevra w action nevra reason s in
        let matches = λ (test : String → Bool) (t : test action ≡ true).
          matches-CoveredFor action nevra repo_id n test x y z t in
        elim (Bool-cases (is_empty query)) [
          | inl e ↦ rw (replay_parsed, e) (raise_or_warn-Kept w.skip_unavailable _ s k)
          | inr e ↦
              rw (replay_parsed, e)
                (do_action-cases w (λ out. Kept out.0) action nevra reason n query_na query noted
                  (λ m. k)
                  (λ a.
                    install_action-Kept action n query_na query noted
                      (matches takes (ground (arith, a))) k)
                  (λ a.
                    reinstall_action-Kept action nevra query noted
                      (matches takes (ground (arith, a))) k)
                  (λ a.
                    erase_action-Kept action nevra query noted
                      (λ b. matches (removes w.skip_unavailable) (ground (arith, a, b))) k)
                  (λ a. reason_action-Kept reason query noted (matches changes_reason a) k))
        ]

    replay_pkg_action-Kept : (s : State) → KeepsCovered s (replay_pkg_action w o s)
    replay_pkg_action-Kept s =
        replay_pkg_action-cases w (KeepsCovered s) o s (λ m k. k)
          (λ action nevra repo_id reason n x y z t.
            replay_parsed-Kept action nevra repo_id reason n s x y z)

module _ (w : Setting) where
  run_rpms-Kept :
      (covers : (String → Bool) → Package → Bool) (rpms : List RpmObject) (s : State)
      (errors : List Message)
      → ((test : String → Bool) (p : Package)
          → some_named w rpms test p ≡ true
          → covers test p ≡ true)
      → Kept w covers s
      → Kept w covers (run_rpms w rpms (s, errors)).0
  unfolding run_rpms
  run_rpms-Kept covers [] s errors h k = k
  run_rpms-Kept covers (o ∷ rpms) s errors h k =
      let out = replay_pkg_action w o s in
      run_rpms-Kept covers rpms (collect out errors).0 (collect out errors).1
        (λ test p x. h test p (ground (arith, x)))
        (rw (collect-state out errors)
          (replay_pkg_action-Kept w covers o (λ test p x. h test p (rw x refl)) s k))

  module _ (c : Section) (known : Known) (covers : (String → Bool) → Package → Bool)
      (is_record : (a : HistoryAction) (id : String) (types : ℕ) (members : List Member)
        → Covered w covers (c.record_as a id types members)) where
    run_comps-Kept :
        (objects : List CompsObject) (r : State × List Message)
        → Kept w covers r.0
        → Kept w covers (run_comps c known w objects r).0
    unfolding run_comps
    run_comps-Kept [] r k = k
    run_comps-Kept (o ∷ objects) (s, errors) k =
        let out = replay_comps c known w o s in
        run_comps-Kept objects (collect out errors) (
          rw (collect-state out errors) (
            replay_comps-cases c known w (λ t. Kept w covers t.0) s (λ m. k) (λ m e. k)
              (λ a id types members. ask-Kept w covers _ s (is_record a id types members) k) o))

  -- Whatever the file has and whatever fails: the goal is asked to install only packages that an
  -- object with an action Install, Upgrade, Downgrade or Reinstall names; it is asked to erase only
  -- installed packages that an object with the reverse part of an action names, of them those with
  -- the action Removed only where unavailable packages are skipped; and a reason is set only for
  -- packages that an object with the action Reason Change names.
  pub run-Covered :
      (k : CompsKnown) (a : Arrays) → All (Covered w (some_named w a.rpms)) (run w k a).0.requests
  unfolding run
  run-Covered k a =
      let covers = some_named w a.rpms in
      run_comps-Kept (envs_section k.mandatory k.optional) k.known_envs covers
        (λ b id types members. tt) a.environments _
        (run_comps-Kept groups_section k.known_groups covers (λ b id types members. tt) a.groups _
          (run_rpms-Kept covers a.rpms empty_state [] (λ test p x. x) tt))
