-- ===== src/Replay/Run/Branches.antt =====
-- Case analyses on the calls of `_replay_pkg_action`, and the errors that are collected.
use dnf.Base.{
  ℕ, String, Bool, true, false, ◌||◌, Option, none, some, List, [], ◌∷◌, ◌++◌, ◌==◌, ℕ_eq,
  String_eq, ◌≡◌, ◌⊎◌, refl, arith, Bool-cases, Option-cases, List-cases, inl, inr,
}
use dnf.Transaction.{Reason}
use dnf.Replay.Packages.{
  RpmObject, HistoryAction, install, upgrade, downgrade, remove, Member, Message, Package, Nevra,
  Setting, State, End, raised, returned, raise_or_warn, collect, ask, install_action,
  reinstall_action, erase_action, do_action, replay_parsed, replay_nevra, replay_pkg_action,
  reason_action, is_forward, is_backward, bad_action, not_in_comps, not_in_history,
}
use dnf.Replay.Groups.{
  create_and_record, record_known, create_members, replay_members, comps_action, MemberObject,
  Section, Known, CompsObject, replay_comps,
}

append_one-not_nil : {A : Type 0} (xs : List A) (a : A) → ¬ (xs ++ a ∷ [] ≡ [])
append_one-not_nil [] a = ground arith
append_one-not_nil (x ∷ xs) a = ground arith

-- If no error is collected, the call has returned and there were none.
pub collect-no_error :
    (out : State × End) (errors : List Message)
    → (collect out errors).1 ≡ []
    → (out.1 ≡ returned) × (errors ≡ [])
collect-no_error (s, raised m) errors e = elim (append_one-not_nil errors m e) [ ]
collect-no_error (s, returned) errors e = (refl, e)

pub collect-state : (out : State × End) (errors : List Message) → (collect out errors).0 ≡ out.0
collect-state (s, raised m) errors = refl
collect-state (s, returned) errors = refl

End-cases : (e : End) → (e ≡ returned) ⊎ ((m : Message) × (e ≡ raised m))
End-cases returned = inl refl
End-cases (raised m) = inr (m, refl)

-- The reason of an object, where it is one.
abbrev pub reason_of : Setting → RpmObject → Option Reason
reason_of w o = elim o.reason [ none ↦ none | some text ↦ w.string_to_reason text ]

module _ (w : Setting) (P : State × End → Type 0) where
  pub do_action-cases :
      (action nevra : String) (reason : Reason) (n : Nevra) (query_na query : List Package)
      (s : State)
      → ((m : Message) → P (s, raised m))
      → (is_forward action ≡ true → P (install_action w action n query_na query s))
      → ((action == "Reinstall") ≡ true → P (reinstall_action w action nevra query s))
      → (is_backward action ≡ true → P (erase_action w action nevra query s))
      → ((action == "Reason Change") ≡ true → P (reason_action w reason query s))
      → P (do_action w action nevra reason n query_na query s)
  unfolding do_action
  do_action-cases action nevra reason n query_na query s failed i r e c =
      elim (Bool-cases (is_forward action)) [
        | inl x ↦ rw (do_action, x) (i x)
        | inr x ↦ elim (Bool-cases (action == "Reinstall")) [
          | inl y ↦ rw (do_action, x, y) (r y)
          | inr y ↦ elim (Bool-cases (is_backward action)) [
            | inl z ↦ rw (do_action, x, y, z) (e z)
            | inr z ↦ elim (Bool-cases (action == "Reason Change")) [
              | inl v ↦ rw (do_action, x, y, z, v) (c v)
              | inr v ↦ rw (do_action, x, y, z, v) (failed (bad_action action nevra))
            ]
          ]
        ]
      ]

  pub replay_pkg_action-cases :
      (o : RpmObject) (s : State)
      → ((m : Message) → P (s, raised m))
      → ((action nevra repo_id : String) (reason : Reason) (n : Nevra)
          → o.action ≡ some action
          → o.nevra ≡ some nevra
          → w.nevra_possibilities nevra ≡ n ∷ []
          → reason_of w o ≡ some reason
          → P (replay_parsed w action nevra repo_id reason n s))
      → P (replay_pkg_action w o s)
  unfolding replay_pkg_action replay_nevra
  replay_pkg_action-cases o s failed parsed = elim (Option-cases o.action) [
    | inl x ↦ rw (replay_pkg_action, x) (failed _)
    | inr a ↦ elim (Option-cases o.nevra) [
      | inl x ↦ rw (replay_pkg_action, a.1, x) (failed _)
      | inr v ↦ elim (Option-cases o.repo_id) [
        | inl x ↦ rw (replay_pkg_action, a.1, v.1, x) (failed _)
        | inr r ↦ elim (Option-cases o.reason) [
          | inl x ↦ rw (replay_pkg_action, a.1, v.1, r.1, x) (failed _)
          | inr t ↦ elim (Option-cases (w.string_to_reason t.0)) [
            | inl x ↦ rw (replay_pkg_action, a.1, v.1, r.1, t.1, x) (failed _)
            | inr q ↦ elim (List-cases (w.nevra_possibilities v.0)) [
              | inl x ↦ rw (replay_pkg_action, replay_nevra, a.1, v.1, r.1, t.1, q.1, x) (failed _)
              | inr c ↦ elim (List-cases c.1) [
                | inl y ↦
                    rw (replay_pkg_action, replay_nevra, a.1, v.1, r.1, t.1, q.1, c.2, y)
                      (parsed a.0 v.0 r.0 q.0 c.0 a.1 v.1 (rw (c.2, y) refl) (rw t.1 q.1))
                | inr d ↦
                    rw (replay_pkg_action, replay_nevra, a.1, v.1, r.1, t.1, q.1, c.2, d.2)
                      (failed _)
              ]
            ]
          ]
        ]
      ]
    ]
  ]

-- A warning, where an option asks for one.
abbrev pub warned : Message → State → State
warned m s = record s { warnings = s.warnings ++ m ∷ [] }

pub raise_or_warn-cases :
    (P : State × End → Type 0) (warn_only : Bool) (m : Message) (s : State)
    → P (s, raised m)
    → (warn_only ≡ true → P (warned m s, returned))
    → P (raise_or_warn warn_only m s)
raise_or_warn-cases P true m s failed warn = warn refl
raise_or_warn-cases P false m s failed warn = failed

module _ (c : Section) (k : Known) (w : Setting) (P : State × End → Type 0) (s : State)
    (failed : (m : Message) → P (s, raised m))
    (warn : (m : Message)
      → (w.ignore_installed || w.skip_unavailable) ≡ true
      → P (warned m s, returned))
    (recorded : (a : HistoryAction) (id : String) (types : ℕ) (members : List Member)
      → P (ask (c.record_as a id types members) s, returned)) where
  create_and_record-cases :
      (a : HistoryAction) (id : String) (types : ℕ) (objects : List MemberObject)
      → P (create_and_record c k w a id types objects s)
  unfolding create_and_record
  create_and_record-cases a id types objects = elim (Bool-cases (k.in_comps id)) [
    | inl x ↦ elim (End-cases (create_members c k objects []).1) [
      | inl y ↦ rw (create_and_record, x, y) (recorded a id types _)
      | inr y ↦ rw (create_and_record, x, y.1) (failed _)
    ]
    | inr x ↦
        rw (create_and_record, x)
          (raise_or_warn-cases P w.skip_unavailable (not_in_comps id) s (failed _)
            (λ e. warn _ (ground (arith, e))))
  ]

  record_known-cases :
      (a : HistoryAction) (id : String) (types : ℕ) (objects : List MemberObject)
      → P (record_known c k w a id types objects s)
  unfolding record_known
  record_known-cases a id types objects = elim (Bool-cases (k.in_history id)) [
    | inl x ↦ rw (record_known, x) (create_and_record-cases a id types objects)
    | inr x ↦
        rw (record_known, x)
          (raise_or_warn-cases P w.ignore_installed (not_in_history id) s (failed _)
            (λ e. warn _ (ground (arith, e))))
  ]

  replay_members-cases :
      (a : HistoryAction) (id : String) (types : ℕ) (members : Option (List MemberObject))
      → P (replay_members c k w a id types members s)
  replay_members-cases a id types none = failed _
  replay_members-cases install id types (some objects) =
      create_and_record-cases install id types objects
  replay_members-cases upgrade id types (some objects) = record_known-cases upgrade id types objects
  replay_members-cases downgrade id types (some objects) =
      record_known-cases downgrade id types objects
  replay_members-cases remove id types (some objects) = record_known-cases remove id types objects

  pub replay_comps-cases : (o : CompsObject) → P (replay_comps c k w o s)
  unfolding replay_comps
  replay_comps-cases o = elim (Option-cases o.action) [
    | inl x ↦ rw (replay_comps, x) (failed _)
    | inr a ↦ elim (Option-cases o.id) [
      | inl x ↦ rw (replay_comps, a.1, x) (failed _)
      | inr i ↦ elim (Option-cases o.package_types) [
        | inl x ↦ rw (replay_comps, a.1, i.1, x) (failed _)
        | inr t ↦ elim (Option-cases (k.string_to_type t.0)) [
          | inl x ↦ rw (replay_comps, a.1, i.1, t.1, x) (failed _)
          | inr n ↦ elim (Option-cases (comps_action c k a.0)) [
            | inl x ↦ rw (replay_comps, a.1, i.1, t.1, n.1, x) (failed _)
            | inr h ↦
                rw (replay_comps, a.1, i.1, t.1, n.1, h.1)
                  (replay_members-cases h.0 i.0 n.0 o.members)
          ]
        ]
      ]
    ]
  ]
