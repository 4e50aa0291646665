-- ===== src/Util/Sync/Flags.antt =====
-- What `_sync_rpm_trans_with_swdb` makes of the items, and what its flags mean.
use dnf.Base.{
  ℕ, zero, suc, String, Bool, true, false, ◌||◌, Option, none, some, List, [], ◌∷◌, any, take, ◌≡◌,
  refl, sym, subst, arith, Option-cases, inl, inr, ◌==◌, ℕ_eq, String_eq, if◌then◌else◌, ◌∙◌, ap,
}
use dnf.Util.Sync.{
  State, unknown, Tsi, Element, is_unknown, matches, candidate, set_state, resolve, outcome, Synced,
  step, elements_loop, sync_rpm_trans_with_swdb,
}

-- The items, where the state of each is changed by its position.
abbrev pub with_states : (ℕ → State → State) → List Tsi → List Tsi
with_states g [] = []
with_states g (t ∷ ts) =
    record { nevra = t.nevra; action = t.action; state = g 0 t.state }
    ∷ with_states (λ i. g (suc i)) ts

abbrev pub put : ℕ → State → ℕ → State → State
put n state i before = if n == i then state else before

-- The state of the item at a position: of the last element whose item it is, or the one it had.
abbrev pub last_outcome : List Element → List (Option ℕ) → ℕ → State → State
last_outcome (rpm_el ∷ els) (none ∷ found) i before = last_outcome els found i before
last_outcome (rpm_el ∷ els) (some n ∷ found) i before =
    last_outcome els found i (put n (outcome rpm_el) i before)
last_outcome _ _ i before = before

-- Did an element fail that has an item?
abbrev pub any_failed : List Element → List (Option ℕ) → Bool
any_failed (rpm_el ∷ els) (none ∷ found) = any_failed els found
any_failed (rpm_el ∷ els) (some n ∷ found) = rpm_el.failed || any_failed els found
any_failed _ _ = false

abbrev pub is_missing : Option ℕ → Bool
is_missing none = true
is_missing (some n) = false

abbrev pub holds_at : (Tsi → Bool) → ℕ → List Tsi → Bool
holds_at p n [] = false
holds_at p zero (t ∷ ts) = p t
holds_at p (suc n) (t ∷ ts) = holds_at p n ts

-- The item of an element, of its key and its name: that of the key; or the first that matches when
-- its turn comes; and where it has none, none matches in the end.
abbrev pub Locates : Option ℕ → String → Option ℕ → (now after : List Tsi) → Type 0
Locates (some key) te_nevra m now after = m ≡ some key
Locates none te_nevra (some n) now after =
    (holds_at (matches te_nevra) n now ≡ true) × (any (matches te_nevra) (take n now) ≡ false)
Locates none te_nevra none now after = any (matches te_nevra) after ≡ false

-- The items of the elements, one after another.
abbrev pub IsFound : List Element → List (Option ℕ) → (now after : List Tsi) → Type 0
IsFound [] [] now after = Unit
IsFound (rpm_el ∷ els) (none ∷ found) now after =
    Locates rpm_el.key rpm_el.nevra none now after × IsFound els found now after
IsFound (rpm_el ∷ els) (some n ∷ found) now after =
    Locates rpm_el.key rpm_el.nevra (some n) now after
    × IsFound els found (with_states (put n (outcome rpm_el)) now) after
IsFound _ _ now after = ⊥

candidate-some :
    (te_nevra : String) (n : ℕ) (ts : List Tsi)
    → candidate te_nevra ts ≡ some n
    → (holds_at (matches te_nevra) n ts ≡ true) × (any (matches te_nevra) (take n ts) ≡ false)
unfolding candidate
candidate-some te_nevra n [] e = absurd (ground (arith, e))
candidate-some te_nevra zero (t ∷ ts) e = elim (Option-cases (candidate te_nevra ts)) [
  | inl x ↦ (ground (arith, e, x), refl)
  | inr m ↦ (ground (arith, e, m.1), refl)
]
candidate-some te_nevra (suc n) (t ∷ ts) e = elim (Option-cases (candidate te_nevra ts)) [
  | inl x ↦ absurd (ground (arith, e, x))
  | inr m ↦
      let rest = candidate-some te_nevra n ts (ground (arith, e, m.1)) in
      (rest.0, ground (arith, e, rest.1))
]

candidate-none :
    (te_nevra : String) (ts : List Tsi)
    → candidate te_nevra ts ≡ none
    → any (matches te_nevra) ts ≡ false
unfolding candidate
candidate-none te_nevra [] e = refl
candidate-none te_nevra (t ∷ ts) e = ground (arith, e, candidate-none te_nevra ts)

with_states_same :
    (g h : ℕ → State → State) (ts : List Tsi)
    → ((i : ℕ) (s : State) → g i s ≡ h i s)
    → with_states g ts ≡ with_states h ts
with_states_same g h [] same = refl
with_states_same g h (t ∷ ts) same =
    rw (same 0 t.state, with_states_same (λ i. g (suc i)) (λ i. h (suc i)) ts (λ i. same (suc i)))

with_states_self : (ts : List Tsi) → with_states (λ i s. s) ts ≡ ts
with_states_self [] = refl
with_states_self (t ∷ ts) = rw (with_states_self ts)

with_states_twice :
    (g h : ℕ → State → State) (ts : List Tsi)
    → with_states g (with_states h ts) ≡ with_states (λ i s. g i (h i s)) ts
with_states_twice g h [] = refl
with_states_twice g h (t ∷ ts) = rw (with_states_twice (λ i. g (suc i)) (λ i. h (suc i)) ts)

put_first : (n : ℕ) (state s : State) → s ≡ put (suc n) state 0 s
put_first n state s = ground arith

set_state-with_states :
    (n : ℕ) (state : State) (ts : List Tsi) → set_state n state ts ≡ with_states (put n state) ts
unfolding set_state
set_state-with_states n state [] = refl
set_state-with_states zero state (t ∷ ts) =
    ap (λ us. record { nevra = t.nevra; action = t.action; state = state } ∷ us)
      (sym (with_states_self ts)
        ∙ with_states_same (λ i s. s) (λ i. put 0 state (suc i)) ts (λ i s. ground arith))
set_state-with_states (suc n) state (t ∷ ts) =
    ap (λ us. t ∷ us)
      (set_state-with_states n state ts
        ∙ with_states_same (put n state) (λ i. put (suc n) state (suc i)) ts (λ i s. ground arith))
    ∙ ap
        (λ s.
          record { nevra = t.nevra; action = t.action; state = s }
          ∷ with_states (λ i. put (suc n) state (suc i)) ts)
        (put_first n state t.state)

-- A change that makes no state UNKNOWN.
abbrev Settles : (State → State) → Type 0
Settles f = (s : State) → f s ≡ unknown → s ≡ unknown

last_outcome-Settles :
    (els : List Element) (found : List (Option ℕ)) (i : ℕ) → Settles (last_outcome els found i)
last_outcome-Settles [] found i s e = e
last_outcome-Settles (rpm_el ∷ els) [] i s e = e
last_outcome-Settles (rpm_el ∷ els) (none ∷ found) i s e = last_outcome-Settles els found i s e
last_outcome-Settles (rpm_el ∷ els) (some n ∷ found) i s e =
    ground (arith, last_outcome-Settles els found i (put n (outcome rpm_el) i s) e)

any-with_states :
    (te_nevra : String) (g : ℕ → State → State) (ts : List Tsi)
    → ((i : ℕ) → Settles (g i))
    → any (matches te_nevra) ts ≡ false
    → any (matches te_nevra) (with_states g ts) ≡ false
any-with_states te_nevra g [] settles e = refl
any-with_states te_nevra g (t ∷ ts) settles e =
    let rest =
      any-with_states te_nevra (λ i. g (suc i)) ts (λ i. settles (suc i)) (ground (arith, e)) in
    ground (arith, e, rest, settles 0 t.state)

-- What is said of a loop: the items found, the items, and the flags.
abbrev Runs : List Element → Synced → Synced → Type 0
Runs els s r =
    (found : List (Option ℕ)) × IsFound els found s.items r.items
    × (r.items ≡ with_states (last_outcome els found) s.items)
    × (r.has_error ≡ (s.has_error || any_failed els found))
    × (r.el_not_found ≡ (s.el_not_found || any is_missing found))

Runs-none :
    (rpm_el : Element) (els : List Element) (s r : Synced)
    → resolve rpm_el s.items ≡ none
    → Runs els (record s { el_not_found = true }) r
    → Runs (rpm_el ∷ els) s r
Runs-none rpm_el els s r e (found, located, items, errors, missing) =
    elim (Option-cases rpm_el.key) [
      | inr k ↦ absurd (ground (arith, e, k.1))
      | inl k ↦ (
        none ∷ found,
        (
          rw k (
              rw items (
                any-with_states rpm_el.nevra (last_outcome els found) s.items
                  (λ i. last_outcome-Settles els found i)
                  (candidate-none rpm_el.nevra s.items (ground (arith, e, k))))),
          located,
        ),
        items,
        errors,
        ground (arith, missing),
      )
    ]

Locates-some :
    (rpm_el : Element) (n : ℕ) (now after : List Tsi)
    → resolve rpm_el now ≡ some n
    → Locates rpm_el.key rpm_el.nevra (some n) now after
Locates-some rpm_el n now after e = elim (Option-cases rpm_el.key) [
  | inr k ↦ rw k.1 (ground (arith, e, k.1))
  | inl k ↦ rw k (candidate-some rpm_el.nevra n now (ground (arith, e, k)))
]

Runs-some :
    (rpm_el : Element) (n : ℕ) (els : List Element) (s r : Synced)
    → resolve rpm_el s.items ≡ some n
    → Runs els
        (record s {
          has_error = s.has_error || rpm_el.failed;
          items = with_states (put n (outcome rpm_el)) s.items;
        })
        r
    → Runs (rpm_el ∷ els) s r
Runs-some rpm_el n els s r e (found, located, items, errors, missing) = (
  some n ∷ found,
  (Locates-some rpm_el n s.items r.items e, located),
  items ∙ with_states_twice (last_outcome els found) (put n (outcome rpm_el)) s.items,
  errors ∙ ground arith,
  missing,
)

step-none :
    (rpm_el : Element) (s : Synced)
    → resolve rpm_el s.items ≡ none
    → step rpm_el s ≡ record s { el_not_found = true }
unfolding step
step-none rpm_el s e = rw (e, step) refl

step-some :
    (rpm_el : Element) (n : ℕ) (s : Synced)
    → resolve rpm_el s.items ≡ some n
    → step rpm_el s ≡ record s {
      has_error = s.has_error || rpm_el.failed;
      items = with_states (put n (outcome rpm_el)) s.items;
    }
unfolding step
step-some rpm_el n s e = rw (e, step, set_state-with_states n (outcome rpm_el) s.items) refl

elements_loop-Runs : (els : List Element) (s : Synced) → Runs els s (elements_loop els s)
unfolding elements_loop
elements_loop-Runs [] s = ([], tt, sym (with_states_self s.items), ground arith, ground arith)
elements_loop-Runs (rpm_el ∷ els) s =
    let r = elements_loop els (step rpm_el s) in
    let rest = elements_loop-Runs els (step rpm_el s) in
    elim (Option-cases (resolve rpm_el s.items)) [
      | inl e ↦ Runs-none rpm_el els s r e (subst (λ t. Runs els t r) (step-none rpm_el s e) rest)
      | inr (n, e) ↦
          Runs-some rpm_el n els s r e (subst (λ t. Runs els t r) (step-some rpm_el n s e) rest)
    ]

-- Each element has the item of its key; else the first item, when its turn comes, that is UNKNOWN,
-- of an action that is reverted, and of its name; and where it has none, no such item is left in the
-- end. An item is DONE or ERROR as the last element that has it ended, and keeps its state if none
-- has it; names and actions stay. An error is reported exactly where an element that has an item
-- failed. That something is not found is reported exactly where an element has no item or an item is
-- UNKNOWN in the end.
pub sync_rpm_trans_with_swdb-Follows :
    (rpm_transaction : List Element) (swdb_transaction : List Tsi)
    → let s = sync_rpm_trans_with_swdb rpm_transaction swdb_transaction in
      (found : List (Option ℕ)) × IsFound rpm_transaction found swdb_transaction s.items
      × (s.items ≡ with_states (last_outcome rpm_transaction found) swdb_transaction)
      × (s.has_error ≡ any_failed rpm_transaction found)
      × (s.el_not_found ≡ (any is_missing found || any is_unknown s.items))
unfolding sync_rpm_trans_with_swdb
sync_rpm_trans_with_swdb-Follows rpm_transaction swdb_transaction =
    let (found, located, items, errors, missing) =
      elements_loop-Runs rpm_transaction
        (record { el_not_found = false; has_error = false; items = swdb_transaction }) in
    (found, located, items, errors, rw missing refl)
