-- ===== src/Util/Sync.antt =====
-- `_sync_rpm_trans_with_swdb` of dnf/util.py: the states of the items after rpm ran the transaction.
pub mod Flags
use dnf.Base.{
  ℕ, zero, suc, String, Bool, true, false, not, ◌&&◌, ◌||◌, Option, none, some, List, [], ◌∷◌, ◌++◌,
  All, any, ◌≡◌, ◌≢◌, refl, arith, if◌then◌else◌, Bool-cases, Option-cases, inl, inr, ◌==◌,
  String_eq,
}
use dnf.Transaction.{Action, downgraded, obsoleted, remove, upgraded, reinstalled}

pub data State : Type 0 where
  unknown done error : State

-- An item of the history database.
pub record Tsi : Type 0 where
  pub nevra : String
  pub action : Action
  pub state : State

-- An element of rpm's transaction. `key`: the position of the item that is its key, if that has a
-- package.
pub record Element : Type 0 where
  pub nevra : String
  pub key : Option ℕ
  pub failed : Bool

abbrev pub is_revert : Action → Bool
is_revert downgraded = true
is_revert obsoleted = true
is_revert remove = true
is_revert upgraded = true
is_revert reinstalled = true
is_revert _ = false

abbrev pub is_unknown : Tsi → Bool
is_unknown tsi = elim tsi.state [ unknown ↦ true | _ ↦ false ]

abbrev pub matches : String → Tsi → Bool
matches te_nevra tsi = is_unknown tsi && is_revert tsi.action && (tsi.nevra == te_nevra)

-- The first candidate for an element.
unfoldable pub candidate : String → List Tsi → Option ℕ
candidate te_nevra [] = none
candidate te_nevra (tsi ∷ cached_tsi) =
    let rest = candidate te_nevra cached_tsi in
    if matches te_nevra tsi then some 0 else elim rest [ none ↦ none | some n ↦ some (suc n) ]

-- `tsi.state = state` for the item at a position.
unfoldable pub set_state : ℕ → State → List Tsi → List Tsi
set_state n state [] = []
set_state zero state (tsi ∷ cached_tsi) =
    record { nevra = tsi.nevra; action = tsi.action; state = state } ∷ cached_tsi
set_state (suc n) state (tsi ∷ cached_tsi) = tsi ∷ set_state n state cached_tsi

abbrev pub resolve : Element → List Tsi → Option ℕ
resolve rpm_el cached_tsi = elim rpm_el.key [
  | none ↦ candidate rpm_el.nevra cached_tsi
  | some n ↦ some n
]

abbrev pub outcome : Element → State
outcome rpm_el = if rpm_el.failed then error else done

-- The flags `el_not_found` and `error`, and the items.
pub record Synced : Type 0 where
  pub el_not_found : Bool
  pub has_error : Bool
  pub items : List Tsi

-- The body of the loop over the elements.
unfoldable pub step : Element → Synced → Synced
unfolding candidate set_state
step rpm_el s = elim (resolve rpm_el s.items) [
  | none ↦ record { el_not_found = true; has_error = s.has_error; items = s.items }
  | some n ↦ record {
    el_not_found = s.el_not_found;
    has_error = s.has_error || rpm_el.failed;
    items = set_state n (outcome rpm_el) s.items;
  }
]

unfoldable pub elements_loop : List Element → Synced → Synced
unfolding step
elements_loop [] s = s
elements_loop (rpm_el ∷ rpm_transaction) s = elements_loop rpm_transaction (step rpm_el s)

unfoldable pub sync_rpm_trans_with_swdb : List Element → List Tsi → Synced
unfolding elements_loop
sync_rpm_trans_with_swdb rpm_transaction swdb_transaction =
    let s =
      elements_loop rpm_transaction
        (record { el_not_found = false; has_error = false; items = swdb_transaction }) in
    record {
      el_not_found = s.el_not_found || any is_unknown s.items;
      has_error = s.has_error;
      items = s.items;
    }
