-- ===== src/Replay.antt =====
-- `TransactionReplay.post_transaction` of dnf/transaction_sr.py.
pub mod Check
pub mod Stored
pub mod Packages
pub mod Groups
pub mod Run
mod Tests
use dnf.Base.{
  String, Bool, true, false, not, ◌&&◌, ◌||◌, Option, none, some, List, [], ◌∷◌, ◌++◌, mem, ◌==◌,
  String_eq, if◌then◌else◌,
}
use dnf.Base.Dict.{Dict, lookup}
use dnf.Transaction.{Action, install, remove, upgraded, downgraded, reinstalled, Reason}

-- An item of the transaction; `nevra`: of its package, if it has one.
pub record Tsi : Type 0 where
  pub nevra : Option String
  pub action : Action
  pub reason : Reason

-- What was collected from the stored transaction, and the options.
pub record Replay : Type 0 where
  pub nevra_cache : List String
  pub nevra_reason_cache : Dict String Reason
  pub ignore_installed : Bool
  pub ignore_extras : Bool
  -- TransactionItemReasonCompare(a, b) > 0
  pub reason_greater : Reason → Reason → Bool

-- The packages that are reported as errors and as warnings, and the items. The source raises
-- TransactionReplayError after the loop if there are errors.
pub record Checked : Type 0 where
  pub errors : List String
  pub warnings : List String
  pub items : List Tsi

abbrev pub is_replaced : Action → Bool
is_replaced upgraded = true
is_replaced downgraded = true
is_replaced reinstalled = true
is_replaced _ = false

abbrev pub is_install_or_remove : Action → Bool
is_install_or_remove install = true
is_install_or_remove remove = true
is_install_or_remove _ = false

module _ (r : Replay) where
  -- The test for a package that was pulled in.
  unfoldable pub is_extra : String → Action → Bool
  is_extra nevra action =
      not (mem nevra r.nevra_cache) && (not r.ignore_installed || not (is_replaced action))

  -- `tsi.reason = replay_reason`
  unfoldable pub replayed_reason : String → Action → Reason → Reason
  replayed_reason nevra action reason = elim (lookup nevra r.nevra_reason_cache) [
    | none ↦ reason
    | some replay_reason ↦
        if is_install_or_remove action || r.reason_greater replay_reason reason
        then replay_reason
        else reason
  ]

  -- The body of the loop for an item.
  unfoldable pub check_item : Tsi → Checked → Checked
  unfolding is_extra replayed_reason
  check_item tsi c = elim tsi.nevra [
    | none ↦ record { errors = c.errors; warnings = c.warnings; items = c.items ++ tsi ∷ [] }
    | some nevra ↦ record {
      errors =
          if is_extra nevra tsi.action && not r.ignore_extras
          then c.errors ++ nevra ∷ []
          else c.errors;
      warnings =
          if is_extra nevra tsi.action && r.ignore_extras
          then c.warnings ++ nevra ∷ []
          else c.warnings;
      items =
          c.items
          ++ record {
            nevra = some nevra;
            action = tsi.action;
            reason = replayed_reason nevra tsi.action tsi.reason;
          }
            ∷ [];
    }
  ]

  unfoldable pub check_loop : List Tsi → Checked → Checked
  unfolding check_item
  check_loop [] c = c
  check_loop (tsi ∷ transaction) c = check_loop transaction (check_item tsi c)

  unfoldable pub post_transaction : List Tsi → Checked
  unfolding check_loop
  post_transaction transaction =
      check_loop transaction (record { errors = []; warnings = []; items = [] })
