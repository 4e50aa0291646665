-- ===== src/Replay/Run/Cache.antt =====
-- Which packages and reasons `run` notes, and so what `post_transaction` reports and restores.
use dnf.Base.{
  map, String, Bool, false, not, Option, ◌&&◌, ◌||◌, none, some, List, [], ◌∷◌, ◌++◌, filter, any,
  mem, ◌==◌, ℕ_eq, String_eq, if◌then◌else◌, ◌≡◌, refl, arith, ap, ◌∙◌, Bool-cases, Option-cases,
  inl, inr,
}
use dnf.Base.Dict.{Dict, lookup, lookup-insert}
use dnf.Transaction.{Reason}
use dnf.Replay.{
  Tsi, Replay, is_extra, is_replaced, is_install_or_remove, replayed_reason, post_transaction,
}
use dnf.Replay.Check.{extras, when, with_reason, post_transaction-checked}
use dnf.Replay.Packages.{
  RpmObject, Message, Package, Nevra, Setting, State, End, returned, collect, ask, erase_all,
  note_nevra, install_action, reinstall_action, erase_action, do_action, replay_parsed,
  replay_pkg_action, run_rpms, limit_repo, installed, reason_action, is_empty, same_na, same_evr,
  keeps_reason,
}
use dnf.Replay.Run.Branches.{
  reason_of, do_action-cases, replay_pkg_action-cases, collect-no_error, collect-state,
  replay_comps-cases,
}
use dnf.Replay.Groups.{
  groups_section, envs_section, Section, Known, CompsObject, replay_comps, run_comps,
}
use dnf.Replay.Run.{Arrays, CompsKnown, empty_state, run, to_replay}

-- Does an object name a package that the transaction is to have?
abbrev pub lists : String → RpmObject → Bool
lists nevra o = elim o.action [
  | none ↦ false
  | some action ↦ elim o.nevra [
    | none ↦ false
    | some v ↦ (nevra == v) && not (action == "Reason Change")
  ]
]

mem-append : (a : String) (xs ys : List String) → mem a (xs ++ ys) ≡ (mem a xs || mem a ys)
mem-append a [] ys = refl
mem-append a (x ∷ xs) ys = ground (arith, mem-append a xs ys)

-- The reason that the objects give a package, where the last one that gives it one counts.
module _ (w : Setting) where
  abbrev pub gives_reason : String → RpmObject → Bool
  gives_reason nevra o = elim o.action [
    | none ↦ false
    | some action ↦ elim o.nevra [ none ↦ false | some v ↦ (nevra == v) && keeps_reason action ]
  ]

  abbrev pub stored_reason : String → List RpmObject → Option Reason → Option Reason
  stored_reason nevra [] found = found
  stored_reason nevra (o ∷ rpms) found =
      stored_reason nevra rpms (if gives_reason nevra o then reason_of w o else found)

-- The two caches that `post_transaction` reads.
abbrev caches : State → List String × Dict String Reason
caches s = (s.nevra_cache, s.nevra_reason_cache)

module _ (w : Setting) where
  erase_all-caches : (query : List Package) (s : State) → caches (erase_all w query s) ≡ caches s
  unfolding erase_all
  erase_all-caches [] s = refl
  erase_all-caches (pkg ∷ query) s = erase_all-caches query (ask _ s)

  install_action-caches :
      (action : String) (n : Nevra) (query_na query : List Package) (s : State)
      → caches (install_action w action n query_na query s).0 ≡ caches s
  unfolding install_action
  install_action-caches action n query_na query s = ground arith

  reinstall_action-caches :
      (action nevra : String) (query : List Package) (s : State)
      → caches (reinstall_action w action nevra query s).0 ≡ caches s
  unfolding reinstall_action
  reinstall_action-caches action nevra query s = ground arith

  erase_action-caches :
      (action nevra : String) (query : List Package) (s : State)
      → caches (erase_action w action nevra query s).0 ≡ caches s
  unfolding erase_action
  erase_action-caches action nevra query s = ground (arith, erase_all-caches (installed query) s)

  reason_action-caches :
      (reason : Reason) (query : List Package) (s : State)
      → caches (reason_action w reason query s).0 ≡ caches s
  reason_action-caches reason [] s = refl
  reason_action-caches reason (pkg ∷ query) s = refl

  do_action-caches :
      (action nevra : String) (reason : Reason) (n : Nevra) (query_na query : List Package)
      (s : State)
      → caches (do_action w action nevra reason n query_na query s).0 ≡ caches s
  do_action-caches action nevra reason n query_na query s =
      do_action-cases w (λ out. caches out.0 ≡ caches s) action nevra reason n query_na query s
        (λ m. refl) (λ x. install_action-caches action n query_na query s)
        (λ x. reinstall_action-caches action nevra query s)
        (λ x. erase_action-caches action nevra query s) (λ x. reason_action-caches reason query s)

  note_nevra-mem :
      (v action nevra : String) (reason : Reason) (s : State)
      → mem v (note_nevra w action nevra reason s).nevra_cache
        ≡ (((v == nevra) && not (action == "Reason Change")) || mem v s.nevra_cache)
  unfolding note_nevra
  note_nevra-mem v action nevra reason s = ground (arith, mem-append v s.nevra_cache (nevra ∷ []))

  note_nevra-lookup :
      (v action nevra : String) (reason : Reason) (s : State)
      → lookup v (note_nevra w action nevra reason s).nevra_reason_cache ≡ (
          if (v == nevra) && keeps_reason action
          then some reason
          else lookup v s.nevra_reason_cache)
  unfolding note_nevra
  note_nevra-lookup v action nevra reason s = elim (Bool-cases (keeps_reason action)) [
    | inl x ↦ rw (x) (lookup-insert nevra v reason s.nevra_reason_cache ∙ ground arith)
    | inr x ↦ rw (x) (ground arith)
  ]

  -- A call that returns has added what the object lists, and the reason that it gives.
  abbrev Adds : String → Bool → Bool → Option Reason → State → State × End → Type 0
  Adds v b gives reason s out =
      out.1 ≡ returned
      → (mem v out.0.nevra_cache ≡ (b || mem v s.nevra_cache))
        × (lookup v out.0.nevra_reason_cache
            ≡ (if gives then reason else lookup v s.nevra_reason_cache))

  module _ (strict : w.skip_unavailable ≡ false) (v : String) where
    replay_parsed-Adds :
        (action nevra repo_id : String) (reason : Reason) (n : Nevra) (s : State)
        → Adds v
            ((v == nevra) && not (action == "Reason Change"))
            ((v == nevra) && keeps_reason action)
            (some reason)
            s
            (replay_parsed w action nevra repo_id reason n s)
    unfolding replay_parsed
    replay_parsed-Adds action nevra repo_id reason n s =
        let query_na = filter (same_na n) w.sack in
        let query = limit_repo repo_id (filter (same_evr w.same_version n) query_na) in
        let kept =
          do_action-caches action nevra reason n query_na query
            (note_nevra w action nevra reason s) in
        elim (Bool-cases (is_empty query)) [
          | inl x ↦ rw (replay_parsed, x, strict) (λ e. absurd (ground (arith, e)))
          | inr x ↦
              rw (replay_parsed, x)
                (λ e. (
                  ap (λ c. mem v c.0) kept ∙ note_nevra-mem v action nevra reason s,
                  ap (λ c. lookup v c.1) kept ∙ note_nevra-lookup v action nevra reason s,
                ))
        ]

    replay_pkg_action-Adds :
        (o : RpmObject) (s : State)
        → Adds v (lists v o) (gives_reason w v o) (reason_of w o) s (replay_pkg_action w o s)
    replay_pkg_action-Adds o s =
        replay_pkg_action-cases w (Adds v (lists v o) (gives_reason w v o) (reason_of w o) s) o s
          (λ m e. absurd (ground (arith, e)))
          (λ action nevra repo_id reason n x y z t.
            rw (x, y, t) (replay_parsed-Adds action nevra repo_id reason n s))

    -- Where no error is collected, the caches have what the objects list and give.
    run_rpms-caches :
        (rpms : List RpmObject) (s : State) (errors : List Message)
        → (run_rpms w rpms (s, errors)).1 ≡ []
        → (mem v (run_rpms w rpms (s, errors)).0.nevra_cache
            ≡ (any (lists v) rpms || mem v s.nevra_cache))
          × (lookup v (run_rpms w rpms (s, errors)).0.nevra_reason_cache
              ≡ stored_reason w v rpms (lookup v s.nevra_reason_cache))
          × (errors ≡ [])
    unfolding run_rpms
    run_rpms-caches [] s errors e = (refl, refl, e)
    run_rpms-caches (o ∷ rpms) s errors e =
        let c = collect (replay_pkg_action w o s) errors in
        let rest = run_rpms-caches rpms c.0 c.1 e in
        let returns = collect-no_error (replay_pkg_action w o s) errors rest.2 in
        let adds = replay_pkg_action-Adds o s returns.0 in
        let same = collect-state (replay_pkg_action w o s) errors in
        (
          rest.0 ∙ rw (same, adds.0) (ground arith),
          rest.1
              ∙ ap (stored_reason w v rpms) (ap (λ u. lookup v u.nevra_reason_cache) same ∙ adds.1),
          returns.1,
        )

-- Groups and environments leave the caches alone.
module _ (c : Section) (k : Known) (w : Setting) where
  replay_comps-caches : (o : CompsObject) (s : State) → caches (replay_comps c k w o s).0 ≡ caches s
  replay_comps-caches o s =
      replay_comps-cases c k w (λ out. caches out.0 ≡ caches s) s (λ m. refl) (λ m e. refl)
        (λ a id types members. refl) o

  run_comps-caches :
      (objects : List CompsObject) (r : State × List Message)
      → caches (run_comps c k w objects r).0 ≡ caches r.0
  unfolding run_comps
  run_comps-caches [] r = refl
  run_comps-caches (o ∷ objects) (s, errors) =
      run_comps-caches objects (collect (replay_comps c k w o s) errors)
      ∙ ap caches (collect-state (replay_comps c k w o s) errors)
      ∙ replay_comps-caches o s

  run_comps-no_error :
      (objects : List CompsObject) (r : State × List Message)
      → (run_comps c k w objects r).1 ≡ []
      → r.1 ≡ []
  unfolding run_comps
  run_comps-no_error [] r e = e
  run_comps-no_error (o ∷ objects) (s, errors) e =
      (collect-no_error (replay_comps c k w o s) errors
        (run_comps-no_error objects (collect (replay_comps c k w o s) errors) e)).1

module _ (w : Setting) (a : Arrays) where
  -- The packages of the transaction that no object lists, in the order of their items.
  abbrev pub unlisted : List Tsi → List String
  unlisted [] = []
  unlisted (tsi ∷ transaction) = elim tsi.nevra [
    | none ↦ unlisted transaction
    | some v ↦
        if not (any (lists v) a.rpms) && (not w.ignore_installed || not (is_replaced tsi.action))
        then v ∷ unlisted transaction
        else unlisted transaction
  ]

  -- An item with the reason that the objects give its package.
  abbrev pub restored : (Reason → Reason → Bool) → Tsi → Tsi
  restored reason_greater tsi = elim tsi.nevra [
    | none ↦ tsi
    | some v ↦ record {
      nevra = some v;
      action = tsi.action;
      reason = elim (stored_reason w v a.rpms none) [
        | none ↦ tsi.reason
        | some reason ↦
            if is_install_or_remove tsi.action || reason_greater reason tsi.reason
            then reason
            else tsi.reason
      ];
    }
  ]

module _ (w : Setting) (k : CompsKnown) (a : Arrays) (strict : w.skip_unavailable ≡ false)
    (no_error : (run w k a).1 ≡ []) where
  run-caches :
      (v : String)
      → (mem v (run w k a).0.nevra_cache ≡ any (lists v) a.rpms)
        × (lookup v (run w k a).0.nevra_reason_cache ≡ stored_reason w v a.rpms none)
  unfolding run lookup
  run-caches v =
      let envs = envs_section k.mandatory k.optional in
      let after_rpms = run_rpms w a.rpms (empty_state, []) in
      let after_groups = run_comps groups_section k.known_groups w a.groups after_rpms in
      let e = run_comps-no_error envs k.known_envs w a.environments after_groups no_error in
      let f = run_comps-no_error groups_section k.known_groups w a.groups after_rpms e in
      let kept =
        run_comps-caches envs k.known_envs w a.environments after_groups
        ∙ run_comps-caches groups_section k.known_groups w a.groups after_rpms in
      let rpms = run_rpms-caches w strict v a.rpms empty_state [] f in
      (ap (λ c. mem v c.0) kept ∙ rpms.0 ∙ ground arith, ap (λ c. lookup v c.1) kept ∙ rpms.1)

  module _ (ignore_extras : Bool) (reason_greater : Reason → Reason → Bool) where
    abbrev after_run : Replay
    after_run = to_replay w ignore_extras reason_greater (run w k a).0

    extras-unlisted :
        (transaction : List Tsi) → extras after_run transaction ≡ unlisted w a transaction
    unfolding is_extra
    extras-unlisted [] = refl
    extras-unlisted (tsi ∷ transaction) = elim (Option-cases tsi.nevra) [
      | inl x ↦ rw x (extras-unlisted transaction)
      | inr v ↦ rw (is_extra, v.1, (run-caches v.0).0, extras-unlisted transaction) refl
    ]

    with_reason-stored : (tsi : Tsi) → with_reason after_run tsi ≡ restored w a reason_greater tsi
    unfolding replayed_reason
    with_reason-stored tsi = elim (Option-cases tsi.nevra) [
      | inl x ↦ rw x refl
      | inr v ↦ rw (v.1, replayed_reason, (run-caches v.0).1) refl
    ]

    map-stored :
        (transaction : List Tsi)
        → map (with_reason after_run) transaction ≡ map (restored w a reason_greater) transaction
    map-stored [] = refl
    map-stored (tsi ∷ transaction) = rw (with_reason-stored tsi, map-stored transaction) refl

    -- Where unavailable packages are not skipped and `run` has collected no error, the check that
    -- follows reports, in order, exactly the packages of the transaction that no object of the file
    -- lists, where upgraded, downgraded and reinstalled ones are passed over if ignore_installed is
    -- set: as errors, or as warnings where extras are ignored. Every item is kept. Its reason becomes
    -- the one that the last of the objects for its package that keep one gives, if there is such an
    -- object, and the item is an install or a removal or that reason is the greater one.
    pub post_transaction-run :
        (transaction : List Tsi)
        → post_transaction after_run transaction ≡ record {
          errors = when after_run (not ignore_extras) (unlisted w a transaction);
          warnings = when after_run ignore_extras (unlisted w a transaction);
          items = map (restored w a reason_greater) transaction;
        }
    post_transaction-run transaction =
        post_transaction-checked after_run transaction
        ∙ rw (extras-unlisted transaction, map-stored transaction) refl
