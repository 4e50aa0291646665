-- ===== src/Transaction/Populate.antt =====
-- `_populate_rpm_ts` of dnf/db/group.py.
use dnf.Base.{
  ℕ, ◌+◌, Bool, false, none, some, List, [], ◌∷◌, ◌++◌, any, ◌≡◌, refl, arith, append_assoc, ◌==◌,
  ℕ_eq, if◌then◌else◌, ◌∙◌, append-nil, not, Bool-cases, inl, inr, ◌&&◌, Option-cases, ◌⊎◌,
}
use dnf.Transaction.{
  Item, Items, Operation, Populated, populated, rpm_error, modular_error, operation, test_fail_safe,
  is_forward, populate_loop, Package, populate_rpm_ts,
}

-- The operations of all items, in order.
unfoldable pub operations : Items → List Operation
unfolding operation
operations [] = []
operations (item ∷ items) = elim (operation item) [
  | none ↦ operations items
  | some op ↦ op ∷ operations items
]

abbrev pub is_unsafe : Item → Bool
is_unsafe item = is_forward item.action && (test_fail_safe item.pkg == 1)

operation-none : (item : Item) → operation item ≡ none → is_unsafe item ≡ false
unfolding operation
operation-none item h = ground (arith, h)

test_fail_safe-cases : (p : Package) → (test_fail_safe p ≡ 0) ⊎ (test_fail_safe p ≡ 1)
unfolding test_fail_safe
test_fail_safe-cases p = ground arith

added-unsafe :
    (problems : ℕ) (item : Item)
    → (problems + (if is_forward item.action then test_fail_safe item.pkg else 0) == 0)
      ≡ ((problems == 0) && not (is_unsafe item))
added-unsafe problems item = ground (arith, test_fail_safe-cases item.pkg)

abbrev outcome : (accepts : Operation → Bool) → ℕ → List Operation → Items → Populated
outcome accepts problems ts items =
    if any (λ op. not (accepts op)) (operations items)
    then rpm_error
    else if (problems == 0) && not (any is_unsafe items)
    then populated (ts ++ operations items)
    else modular_error

module _ (accepts : Operation → Bool) where
  populate_loop-outcome :
      (problems : ℕ) (ts : List Operation) (items : Items)
      → populate_loop accepts problems ts items ≡ outcome accepts problems ts items
  unfolding populate_loop operations operation test_fail_safe
  populate_loop-outcome problems ts [] = ground (arith, append-nil ts)
  populate_loop-outcome problems ts (item ∷ items) = elim (Option-cases (operation item)) [
    | inl e ↦
        rw (e, populate_loop, operations, operation-none item e)
          (populate_loop-outcome problems ts items)
    | inr (op, e) ↦ elim (Bool-cases (accepts op)) [
      | inl h ↦
          rw (e, h, populate_loop, operations)
            (populate_loop-outcome
                (problems + (if is_forward item.action then test_fail_safe item.pkg else 0))
                (ts ++ op ∷ []) items
              ∙ ground
                  (arith, added-unsafe problems item, append_assoc ts (op ∷ []) (operations items)))
      | inr h ↦ rw (e, h, populate_loop, operations) refl
    ]
  ]

  -- What the loop gives: rpm.error where rpm rejects the operation of some item; else the error of
  -- missing modular metadata where the test fails for some item that brings a package; else the
  -- operations of all items in their order.
  pub populate_rpm_ts-outcome :
      (items : Items)
      → populate_rpm_ts accepts items ≡ (
          if any (λ op. not (accepts op)) (operations items)
          then rpm_error
          else if any is_unsafe items
          then modular_error
          else populated (operations items))
  unfolding populate_rpm_ts
  populate_rpm_ts-outcome items = ground (arith, populate_loop-outcome 0 [] items)
