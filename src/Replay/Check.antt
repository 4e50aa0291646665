-- ===== src/Replay/Check.antt =====
-- What `post_transaction` reports, and the reasons it leaves.
use dnf.Base.{
  String, Bool, true, false, not, Option, none, some, List, [], ◌∷◌, ◌++◌, map, ◌≡◌, refl, arith,
  append_assoc, append-nil, if◌then◌else◌, ◌∙◌, Bool-cases, inl, inr,
}
use dnf.Transaction.{Action, Reason}
use dnf.Replay.{
  Tsi, Replay, Checked, is_extra, replayed_reason, check_item, check_loop, post_transaction,
}

module _ (r : Replay) where
  -- An item with the reason that the stored transaction gives it.
  abbrev pub with_reason : Tsi → Tsi
  with_reason tsi = elim tsi.nevra [
    | none ↦ tsi
    | some nevra ↦ record {
      nevra = some nevra;
      action = tsi.action;
      reason = replayed_reason r nevra tsi.action tsi.reason;
    }
  ]

  -- The packages that were pulled in, in the order of their items.
  abbrev pub extras : List Tsi → List String
  extras [] = []
  extras (tsi ∷ transaction) = elim tsi.nevra [
    | none ↦ extras transaction
    | some nevra ↦
        if is_extra r nevra tsi.action then nevra ∷ extras transaction else extras transaction
  ]

  abbrev pub when : Bool → List String → List String
  when true l = l
  when false l = []

  abbrev checked : Checked → List Tsi → Checked
  checked c transaction = record {
    errors = c.errors ++ when (not r.ignore_extras) (extras transaction);
    warnings = c.warnings ++ when r.ignore_extras (extras transaction);
    items = c.items ++ map with_reason transaction;
  }

  check_item-checked :
      (nevra : Option String) (action : Action) (reason : Reason) (transaction : List Tsi)
      (c : Checked)
      → let tsi : Tsi = record { nevra = nevra; action = action; reason = reason } in
        checked (check_item r tsi c) transaction ≡ checked c (tsi ∷ transaction)
  unfolding check_item
  check_item-checked none action reason transaction c =
      let tsi : Tsi = record { nevra = none; action = action; reason = reason } in
      rw (append_assoc c.items (tsi ∷ []) (map with_reason transaction)) refl
  check_item-checked (some nevra) action reason transaction c =
      let tsi : Tsi = record {
        nevra = some nevra;
        action = action;
        reason = replayed_reason r nevra action reason;
      } in
      let kept = append_assoc c.items (tsi ∷ []) (map with_reason transaction) in
      elim (Bool-cases (is_extra r nevra action)) [
        | inr x ↦ rw (check_item, x, kept) refl
        | inl x ↦ elim (Bool-cases r.ignore_extras) [
          | inl y ↦
              rw (check_item, x, y, kept, append_assoc c.warnings (nevra ∷ []) (extras transaction))
                refl
          | inr y ↦
              rw (check_item, x, y, kept, append_assoc c.errors (nevra ∷ []) (extras transaction))
                refl
        ]
      ]

  check_loop-checked :
      (transaction : List Tsi) (c : Checked) → check_loop r transaction c ≡ checked c transaction
  unfolding check_loop
  check_loop-checked [] c =
      ground (arith, append-nil c.errors, append-nil c.warnings, append-nil c.items)
  check_loop-checked (tsi ∷ transaction) c =
      check_loop-checked transaction (check_item r tsi c)
      ∙ check_item-checked tsi.nevra tsi.action tsi.reason transaction c

  -- Each package that was pulled in is reported, in order: as an error, or as a warning where extras
  -- are ignored. Every item is kept and gets the reason of the stored transaction, as
  -- replayed_reason gives it.
  pub post_transaction-checked :
      (transaction : List Tsi)
      → post_transaction r transaction ≡ record {
        errors = when (not r.ignore_extras) (extras transaction);
        warnings = when r.ignore_extras (extras transaction);
        items = map with_reason transaction;
      }
  unfolding post_transaction
  post_transaction-checked transaction =
      check_loop-checked transaction (record { errors = []; warnings = []; items = [] })
