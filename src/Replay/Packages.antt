-- ===== src/Replay/Packages.antt =====
-- `TransactionReplay._replay_pkg_action` of dnf/transaction_sr.py, for values of the right types,
-- and the loop of `run` over the packages.
use dnf.Base.{
  ℕ, String, Bool, true, false, not, ◌&&◌, ◌||◌, Option, none, some, List, [], ◌∷◌, ◌++◌, filter,
  any, mem, ◌==◌, ℕ_eq, String_eq, if◌then◌else◌,
}
use dnf.Base.Dict.{Dict, insert}
use dnf.Transaction.{Reason}

-- What hawkey makes of a NEVRA; an epoch that is not written is none.
pub record Nevra : Type 0 where
  pub name : String
  pub epoch : Option ℕ
  pub version : String
  pub release : String
  pub arch : String

-- A package of the sack.
pub record Package : Type 0 where
  pub name : String
  pub epoch : ℕ
  pub version : String
  pub release : String
  pub arch : String
  pub reponame : String
  pub is_installed : Bool
  pub is_installonly : Bool

-- An object of the key rpms: `none` for a key that is not there.
pub record RpmObject : Type 0 where
  pub action : Option String
  pub nevra : Option String
  pub repo_id : Option String
  pub reason : Option String

-- What an error or a warning is about.
pub data Message : Type 0 where
  missing_key : String → Message
  bad_reason : String → String → Message
  bad_nevra : String → Message
  not_found : String → Message
  already_installed : String → String → Message
  not_available : String → String → Message
  not_installed : String → String → Message
  bad_action : String → String → Message
  bad_member : String → Message
  not_in_comps : String → Message
  not_in_history : String → Message

-- The methods of a persistor.
pub data HistoryAction : Type 0 where
  install upgrade downgrade remove : HistoryAction

-- A package of a group, or a group of an environment.
pub record Member : Type 0 where
  pub name : String
  pub is_in : Bool
  pub kind : ℕ

-- What the goal and the history are asked to do.
pub data Request : Type 0 where
  goal_install : List Package → (is_optional : Bool) → Request
  goal_erase : Package → Request
  set_reason : Package → Reason → Request
  record_group : HistoryAction → (group_id : String) → (pkg_types : ℕ) → List Member → Request
  record_env : HistoryAction → (env_id : String) → (pkg_types : ℕ) → List Member → Request

-- The options, the sack and the parsers of hawkey and libdnf.
pub record Setting : Type 0 where
  pub ignore_installed : Bool
  pub skip_unavailable : Bool
  pub strict : Bool
  pub sack : List Package
  pub nevra_possibilities : String → List Nevra
  pub string_to_reason : String → Option Reason
  -- How a query compares two versions, or two releases.
  pub same_version : String → String → Bool

pub record State : Type 0 where
  pub nevra_cache : List String
  pub nevra_reason_cache : Dict String Reason
  pub warnings : List Message
  pub requests : List Request

-- How a call ends: TransactionError, or a return.
pub data End : Type 0 where
  raised : Message → End
  returned : End

-- `_raise_or_warn`, and the return that follows.
abbrev pub raise_or_warn : Bool → Message → State → State × End
raise_or_warn warn_only msg s =
    if warn_only
    then (record s { warnings = s.warnings ++ msg ∷ [] }, returned)
    else (s, raised msg)

-- What follows a call that returns.
abbrev pub after : State × End → (State → State × End) → State × End
after (s, raised msg) next = (s, raised msg)
after (s, returned) next = next s

-- `except TransactionError as e: errors.append(e)`
abbrev pub collect : State × End → List Message → State × List Message
collect (s, raised msg) errors = (s, errors ++ msg ∷ [])
collect (s, returned) errors = (s, errors)

abbrev pub ask : Request → State → State
ask r s = record s { requests = s.requests ++ r ∷ [] }

abbrev pub is_empty : List Package → Bool
is_empty [] = true
is_empty (p ∷ ps) = false

abbrev or_zero : Option ℕ → ℕ
or_zero none = 0
or_zero (some n) = n

abbrev pub same_na : Nevra → Package → Bool
same_na n p = (p.name == n.name) && (p.arch == n.arch)

abbrev pub same_evr : (String → String → Bool) → Nevra → Package → Bool
same_evr same n p =
    (p.epoch == or_zero n.epoch) && same p.version n.version && same p.release n.release

abbrev pub installed : List Package → List Package
installed query = filter (λ p. p.is_installed) query

abbrev pub available : List Package → List Package
available query = filter (λ p. not p.is_installed) query

-- The query, limited to the repository and the installed packages where the repository has any.
unfoldable pub limit_repo : String → List Package → List Package
limit_repo repo_id query =
    if repo_id == "" || is_empty (filter (λ p. p.reponame == repo_id) query)
    then query
    else filter (λ p. (p.reponame == repo_id) || p.is_installed) query

abbrev pub is_forward : String → Bool
is_forward action = mem action ("Install" ∷ "Upgrade" ∷ "Downgrade" ∷ [])

abbrev pub is_backward : String → Bool
is_backward action =
    mem action ("Upgraded" ∷ "Downgraded" ∷ "Reinstalled" ∷ "Removed" ∷ "Obsoleted" ∷ [])

abbrev pub keeps_reason : String → Bool
keeps_reason action = is_forward action || mem action ("Reinstall" ∷ "Removed" ∷ [])

module _ (w : Setting) where
  abbrev pub install_request : List Package → Request
  install_request query = goal_install query (not w.strict)

  unfoldable pub erase_all : List Package → State → State
  erase_all [] s = s
  erase_all (pkg ∷ query) s = erase_all query (ask (goal_erase pkg) s)

  -- The caches, before the action is looked at.
  unfoldable pub note_nevra : String → String → Reason → State → State
  note_nevra action nevra reason s = record s {
    nevra_cache = if action == "Reason Change" then s.nevra_cache else s.nevra_cache ++ nevra ∷ [];
    nevra_reason_cache =
        if keeps_reason action
        then insert nevra reason s.nevra_reason_cache
        else s.nevra_reason_cache;
  }

  unfoldable pub install_action : String → Nevra → List Package → List Package → State → State × End
  install_action action n query_na query s =
      after
        (if (action == "Install")
            && not (is_empty (installed query_na))
            && not (any (λ p. p.is_installonly) query_na)
          then raise_or_warn w.ignore_installed (already_installed n.name action) s
          else (s, returned))
        (λ t. (ask (install_request query) t, returned))

  unfoldable pub reinstall_action : String → String → List Package → State → State × End
  reinstall_action action nevra query s =
      if is_empty (available query)
      then raise_or_warn w.skip_unavailable (not_available nevra action) s
      else (ask (install_request (available query)) s, returned)

  unfoldable pub erase_action : String → String → List Package → State → State × End
  unfolding erase_all
  erase_action action nevra query s =
      if is_empty (installed query)
      then raise_or_warn w.ignore_installed (not_installed nevra action) s
      else if not w.skip_unavailable || (action == "Removed")
      then (erase_all (installed query) s, returned)
      else (s, returned)

  abbrev pub reason_action : Reason → List Package → State → State × End
  reason_action reason [] s = (s, returned)
  reason_action reason (pkg ∷ query) s = (ask (set_reason pkg reason) s, returned)

  -- The branches on the action.
  unfoldable pub do_action :
      String → String → Reason → Nevra → List Package → List Package → State → State × End
  unfolding install_action reinstall_action erase_action
  do_action action nevra reason n query_na query s =
      if is_forward action
      then install_action action n query_na query s
      else if action == "Reinstall"
      then reinstall_action action nevra query s
      else if is_backward action
      then erase_action action nevra query s
      else if action == "Reason Change"
      then reason_action reason query s
      else (s, raised (bad_action action nevra))

  unfoldable pub replay_parsed : String → String → String → Reason → Nevra → State → State × End
  unfolding limit_repo note_nevra do_action
  replay_parsed action nevra repo_id reason n s =
      let query_na = filter (same_na n) w.sack in
      let query = limit_repo repo_id (filter (same_evr w.same_version n) query_na) in
      if is_empty query
      then raise_or_warn w.skip_unavailable (not_found nevra) s
      else do_action action nevra reason n query_na query (note_nevra action nevra reason s)

  -- One package object, where its keys are there and its reason is one.
  unfoldable pub replay_nevra : String → String → String → Reason → State → State × End
  unfolding replay_parsed
  replay_nevra action nevra repo_id reason s = elim (w.nevra_possibilities nevra) [
    | [] ↦ (s, raised (bad_nevra nevra))
    | n ∷ others ↦ elim others [
      | [] ↦ replay_parsed action nevra repo_id reason n s
      | o ∷ more ↦ (s, raised (bad_nevra nevra))
    ]
  ]

  unfoldable pub replay_pkg_action : RpmObject → State → State × End
  unfolding replay_nevra
  replay_pkg_action pkg_data s = elim pkg_data.action [
    | none ↦ (s, raised (missing_key "action"))
    | some action ↦ elim pkg_data.nevra [
      | none ↦ (s, raised (missing_key "nevra"))
      | some nevra ↦ elim pkg_data.repo_id [
        | none ↦ (s, raised (missing_key "repo_id"))
        | some repo_id ↦ elim pkg_data.reason [
          | none ↦ (s, raised (missing_key "reason"))
          | some text ↦ elim (w.string_to_reason text) [
            | none ↦ (s, raised (bad_reason text nevra))
            | some reason ↦ replay_nevra action nevra repo_id reason s
          ]
        ]
      ]
    ]
  ]

  -- The loop of `run` over the packages, with its list of errors.
  unfoldable pub run_rpms : List RpmObject → State × List Message → State × List Message
  unfolding replay_pkg_action
  run_rpms [] r = r
  run_rpms (pkg_data ∷ rpms) (s, errors) =
      run_rpms rpms (collect (replay_pkg_action pkg_data s) errors)
