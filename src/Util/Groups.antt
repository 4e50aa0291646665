-- ===== src/Util/Groups.antt =====
-- `group_by_filter`, `insert_if` and `split_by` of dnf/util.py.
use dnf.Base.{
  ℕ, zero, suc, Bool, true, false, not, Option, none, some, List, [], ◌∷◌, ◌++◌, length, filter,
  All, ◌≡◌, refl, arith, append_assoc, append-nil, if◌then◌else◌, ap, ◌∙◌, Bool-cases, inl, inr,
  ◌<◌,
}

-- What the marked iterator yields: `separator`, which is no other object, or an item.
pub data Marked {ℓ} (A : Type ℓ) : Type ℓ where
  separator : Marked A
  item : A → Marked A

module _ {ℓ} {A : Type ℓ} where
  -- The loop of `functools.reduce(splitter, iterable, ([], []))`.
  unfoldable pub splitter : (A → Bool) → List A × List A → List A → List A × List A
  splitter fn acc [] = acc
  splitter fn (passing, failing) (x ∷ xs) =
      splitter fn (if fn x then (passing ++ x ∷ [], failing) else (passing, failing ++ x ∷ [])) xs

  unfoldable pub group_by_filter : (A → Bool) → List A → List A × List A
  unfolding splitter
  group_by_filter fn iterable = splitter fn ([], []) iterable

  splitter-filter :
      (fn : A → Bool) (passing failing xs : List A)
      → splitter fn (passing, failing) xs
        ≡ (passing ++ filter fn xs, failing ++ filter (λ x. not (fn x)) xs)
  unfolding splitter
  splitter-filter fn passing failing [] = ground (arith, append-nil passing, append-nil failing)
  splitter-filter fn passing failing (x ∷ xs) = elim (Bool-cases (fn x)) [
    | inl h ↦
        rw (h, splitter)
          (splitter-filter fn (passing ++ x ∷ []) failing xs
            ∙ ap (λ l. (l, failing ++ filter (λ y. not (fn y)) xs))
                (append_assoc passing (x ∷ []) (filter fn xs)))
    | inr h ↦
        rw (h, splitter)
          (splitter-filter fn passing (failing ++ x ∷ []) xs
            ∙ ap (λ l. (passing ++ filter fn xs, l))
                (append_assoc failing (x ∷ []) (filter (λ y. not (fn y)) xs)))
  ]

  -- The items that pass the test, and those that do not, each in their order.
  pub group_by_filter-filter :
      (fn : A → Bool) (xs : List A)
      → group_by_filter fn xs ≡ (filter fn xs, filter (λ x. not (fn x)) xs)
  unfolding group_by_filter
  group_by_filter-filter fn xs = splitter-filter fn [] [] xs

  -- `insert_if(separator, iterable, condition)`
  unfoldable pub insert_if : (A → Bool) → List A → List (Marked A)
  insert_if condition [] = []
  insert_if condition (x ∷ xs) =
      let rest = item x ∷ insert_if condition xs in if condition x then separator ∷ rest else rest

  -- `next_subsequence`: the items before the separator, which is consumed, and what the iterator has left.
  unfoldable pub next_subsequence : List (Marked A) → List A × List (Marked A)
  next_subsequence [] = ([], [])
  next_subsequence (separator ∷ it) = ([], it)
  next_subsequence (item x ∷ it) = let (taken, left) = next_subsequence it in (x ∷ taken, left)

  -- The loop of `split_by`; `none` if it does not end in the given number of rounds.
  unfoldable pub split_loop : ℕ → List (Marked A) → Option (List (List A))
  unfolding next_subsequence
  split_loop zero marked = none
  split_loop (suc fuel) marked =
      let rest = split_loop fuel (next_subsequence marked).1 in
      elim (next_subsequence marked).0 [
        | [] ↦ some []
        | x ∷ subsequence ↦ elim rest [
          | none ↦ none
          | some yielded ↦ some ((x ∷ subsequence) ∷ yielded)
        ]
      ]

  -- `split_by`, as a list.
  unfoldable pub split_by : (A → Bool) → List A → Option (List (List A))
  unfolding insert_if next_subsequence split_loop
  split_by condition iterable =
      let (head, left) = next_subsequence (insert_if condition iterable) in
      elim (split_loop (suc (length iterable)) left) [
        | none ↦ none
        | some yielded ↦ some (head ∷ yielded)
      ]

  -- The groups: a new one starts at each item that meets the condition. The first may be empty.
  unfoldable pub groups : (A → Bool) → List A → List A × List (List A)
  groups condition [] = ([], [])
  groups condition (x ∷ xs) =
      let (first, others) = groups condition xs in
      if condition x then ([], (x ∷ first) ∷ others) else (x ∷ first, others)

  abbrev pub concat : List (List A) → List A
  concat [] = []
  concat (xs ∷ xss) = xs ++ concat xss

  -- A group starts with the item that meets the condition, which no other item of it does.
  abbrev pub IsGroup : (A → Bool) → List A → Type 0
  IsGroup condition [] = ⊥
  IsGroup condition (x ∷ xs) = (condition x ≡ true) × All (λ y. condition y ≡ false) xs

  next_subsequence-groups :
      (condition : A → Bool) (xs : List A)
      → (next_subsequence (insert_if condition xs)).0 ≡ (groups condition xs).0
  unfolding next_subsequence insert_if groups
  next_subsequence-groups condition [] = refl
  next_subsequence-groups condition (x ∷ xs) = elim (Bool-cases (condition x)) [
    | inl h ↦ rw (h, insert_if, groups) refl
    | inr h ↦ rw (h, insert_if, groups) (ap (λ l. x ∷ l) (next_subsequence-groups condition xs))
  ]

  after_head :
      {r : Option (List (List A))} {t g : List A} {gs : List (List A)} (f : List A → List A)
      → t ≡ g
      → r ≡ some gs
      → (elim r [ none ↦ none | some yielded ↦ some (f t ∷ yielded) ]) ≡ some (f g ∷ gs)
  after_head f h k = rw (k, h) refl

  split_loop-groups :
      (condition : A → Bool) (xs : List A) (n : ℕ)
      → length xs < n
      → split_loop n (next_subsequence (insert_if condition xs)).1 ≡ some (groups condition xs).1
  unfolding next_subsequence insert_if groups split_loop
  split_loop-groups condition xs zero l = ground (arith, l)
  split_loop-groups condition [] (suc n) l = refl
  split_loop-groups condition (x ∷ xs) (suc n) l = elim (Bool-cases (condition x)) [
    | inl h ↦
        rw (h, insert_if, groups)
          (after_head (λ t. x ∷ t) (next_subsequence-groups condition xs)
            (split_loop-groups condition xs n (omega (arith, l))))
    | inr h ↦ rw (h, insert_if, groups) (split_loop-groups condition xs (suc n) (omega (arith, l)))
  ]

  groups-concat :
      (condition : A → Bool) (xs : List A)
      → (groups condition xs).0 ++ concat (groups condition xs).1 ≡ xs
  unfolding groups
  groups-concat condition [] = refl
  groups-concat condition (x ∷ xs) = elim (Bool-cases (condition x)) [
    | inl h ↦ rw (h, groups) (ap (λ l. x ∷ l) (groups-concat condition xs))
    | inr h ↦ rw (h, groups) (ap (λ l. x ∷ l) (groups-concat condition xs))
  ]

  groups-IsGroup :
      (condition : A → Bool) (xs : List A)
      → All (λ y. condition y ≡ false) (groups condition xs).0
        × All (IsGroup condition) (groups condition xs).1
  unfolding groups
  groups-IsGroup condition [] = (tt, tt)
  groups-IsGroup condition (x ∷ xs) =
      let ih = groups-IsGroup condition xs in
      elim (Bool-cases (condition x)) [
        | inl h ↦ rw (h, groups) (tt, ((h, ih.0), ih.1))
        | inr h ↦ rw (h, groups) ((h, ih.0), ih.1)
      ]

  -- The generator always ends. Its subsequences, one after another, are the iterable; in the first
  -- one, which may be empty, no item meets the condition, and each other one starts with an item
  -- that does and has no other.
  pub split_by-IsGroup :
      (condition : A → Bool) (xs : List A)
      → (head : List A) × (others : List (List A)) × (split_by condition xs ≡ some (head ∷ others))
        × (head ++ concat others ≡ xs)
        × All (λ y. condition y ≡ false) head
        × All (IsGroup condition) others
  unfolding split_by
  split_by-IsGroup condition xs = (
    (groups condition xs).0,
    (groups condition xs).1,
    after_head (λ t. t) (next_subsequence-groups condition xs)
        (split_loop-groups condition xs (suc (length xs)) (omega arith)),
    groups-concat condition xs,
    (groups-IsGroup condition xs).0,
    (groups-IsGroup condition xs).1,
  )
