-- ===== src/Replay/Run.antt =====
-- `TransactionReplay.run` of dnf/transaction_sr.py, and the check that follows it.
pub mod Branches
pub mod Cache
pub mod Named
mod Tests
use dnf.Base.{ℕ, String, Bool, true, false, Option, List, [], ◌∷◌}
use dnf.Transaction.{Reason}
use dnf.Replay.{Replay}
use dnf.Replay.Packages.{RpmObject, Message, Setting, State, run_rpms}
use dnf.Replay.Groups.{CompsObject, Known, groups_section, envs_section, run_comps}

-- The arrays of the stored transaction.
pub record Arrays : Type 0 where
  pub rpms : List RpmObject
  pub groups : List CompsObject
  pub environments : List CompsObject

-- What is read of the comps data and the history for groups and for environments, and the numbers
-- of the two types that a group of an environment may have.
pub record CompsKnown : Type 0 where
  pub known_groups : Known
  pub known_envs : Known
  pub mandatory : ℕ
  pub optional : ℕ

abbrev pub empty_state : State
empty_state = record { nevra_cache = []; nevra_reason_cache = []; warnings = []; requests = [] }

-- `run`, which raises TransactionReplayError at the end if there are errors.
unfoldable pub run : Setting → CompsKnown → Arrays → State × List Message
unfolding run_rpms run_comps
run w k a =
    run_comps (envs_section k.mandatory k.optional) k.known_envs w a.environments
      (run_comps groups_section k.known_groups w a.groups (run_rpms w a.rpms (empty_state, [])))

-- What `post_transaction` finds in the object after `run`.
abbrev pub to_replay : Setting → (ignore_extras : Bool) → (Reason → Reason → Bool) → State → Replay
to_replay w ignore_extras reason_greater s = record {
  nevra_cache = s.nevra_cache;
  nevra_reason_cache = s.nevra_reason_cache;
  ignore_installed = w.ignore_installed;
  ignore_extras = ignore_extras;
  reason_greater = reason_greater;
}
