-- ===== src/Comps/Upgrade.antt =====
-- What `_group_upgrade` of dnf/comps.py does with the packages of a group.
use dnf.Base.{
  String, Bool, true, false, not, ◌||◌, none, some, List, [], ◌∷◌, ◌++◌, filter, map, All,
  All-append, mem, String_eq, ℕ_eq, ◌≡◌, refl, arith, subst, Bool-cases, inl, inr,
}
use dnf.Comps.{
  CompsPackage, Entry, raw_package, trans_pkg, entry_name, same, has, add_entry, update_set,
  TransactionBunch, SwdbGroup,
}
use dnf.Comps.Bunch.{has-update_set, has-append}
use dnf.Comps.Solver.{
  World, Persistors, CompsGroup, bunch, group_upgrade, upgrade_bunch, pkgs_of_type, names,
  trans_of_comps, trans_of_name,
}

same_refl : (e : Entry) → same e e ≡ true
same_refl (raw_package p) = ground (arith, ℕ_eq.beq_iff p.handle p.handle)
same_refl (trans_pkg n b o none) = ground (arith, String_eq.beq_iff n n)
same_refl (trans_pkg n b o (some r)) = ground (arith, String_eq.beq_iff n n, String_eq.beq_iff r r)

has-add_entry : (e : Entry) (set : List Entry) → has e (add_entry e set) ≡ true
unfolding add_entry
has-add_entry e set = ground (arith, has-append e set (e ∷ []), same_refl e)

All-update_set :
    (P : Entry → Type 0) (set other : List Entry)
    → All P set
    → All P other
    → All P (update_set set other)
unfolding update_set add_entry
All-update_set P set [] h k = h
All-update_set P set (e ∷ other) h k = elim (Bool-cases (has e set)) [
  | inl t ↦ rw t (All-update_set P set other h k.1)
  | inr t ↦
      rw t (All-update_set P (set ++ e ∷ []) other (All-append P set (e ∷ []) h (k.0, tt)) k.1)
]

module _ {A : Type 0} (f : A → Entry) (q : A → Bool) where
  All-map-filter :
      (R : A → Type 0) (P : Entry → Type 0)
      → ((a : A) → q a ≡ true → R a → P (f a))
      → (xs : List A) → All R xs
      → All P (map f (filter q xs))
  All-map-filter R P h [] r = tt
  All-map-filter R P h (x ∷ xs) r = elim (Bool-cases (q x)) [
    | inl t ↦ rw t (h x t r.0, All-map-filter R P h xs r.1)
    | inr t ↦ rw t (All-map-filter R P h xs r.1)
  ]

  -- Every entry that is added is in the set.
  has-added :
      (set : List Entry) (xs : List A) (out : List Entry)
      → update_set set (map f (filter q xs)) ≡ out
      → All (λ x. (q x ≡ true) → has (f x) out ≡ true) xs
  unfolding update_set
  has-added set [] out e = tt
  has-added set (x ∷ xs) out e = elim (Bool-cases (q x)) [
    | inl t ↦
        let step = rw (t, filter) at e in
        (
          λ k.
              subst (λ o. has (f x) o ≡ true) step
                (has-update_set (f x) (add_entry (f x) set) (map f (filter q xs))
                  (has-add_entry (f x) set)),
          has-added (add_entry (f x) set) xs out step,
        )
    | inr t ↦ (λ k. ground (arith, k, t), has-added set xs out (rw (t, filter) at e))
  ]

either : (q l r : Bool) → ((not q ≡ true) → l ≡ true) → ((q ≡ true) → r ≡ true) → (l || r) ≡ true
either q l r h k = ground (arith, h, k)

module _ {A : Type 0} where
  All-true : (xs : List A) → All (λ x. Unit {0}) xs
  All-true [] = tt
  All-true (x ∷ xs) = (tt, All-true xs)

  All-either :
      (q : A → Bool) (l r : A → Bool) (xs : List A)
      → All (λ x. (not (q x) ≡ true) → l x ≡ true) xs
      → All (λ x. (q x ≡ true) → r x ≡ true) xs
      → All (λ x. (l x || r x) ≡ true) xs
  All-either q l r [] h k = tt
  All-either q l r (x ∷ xs) h k = (either (q x) (l x) (r x) h.0 k.0, All-either q l r xs h.1 k.1)

mem-later :
    (x : String) (xs ys : List String)
    → All (λ n. mem n xs ≡ true) ys
    → All (λ n. mem n (x ∷ xs) ≡ true) ys
mem-later x xs [] h = tt
mem-later x xs (y ∷ ys) h = (ground (arith, h.0), mem-later x xs ys h.1)

All-mem : (xs : List String) → All (λ n. mem n xs ≡ true) xs
All-mem [] = tt
All-mem (x ∷ xs) = (ground (arith, String_eq.beq_iff x x), mem-later x xs xs (All-mem xs))

-- Where the group is installed and in the comps data, the result is a bunch. It installs no name of
-- the old group, upgrades only such names, and removes only those that are no name of the packages
-- of the group's types; and each of these packages is installed or upgraded.
pub group_upgrade-splits :
    (w : World) (group_id : String) (p : Persistors) (old : SwdbGroup) (group : CompsGroup)
    → w.swdb_group group_id ≡ some old
    → w.group_by_id group_id ≡ some group
    → let old_set = map (λ q. q.name) old.packages in
      let new_set = pkgs_of_type w group old.pkg_types in
      (b : TransactionBunch) × ((group_upgrade w group_id p).0 ≡ bunch b)
      × All (λ e. mem (entry_name e) old_set ≡ false) b.install
      × All (λ e. mem (entry_name e) old_set ≡ true) b.upgrade
      × All
          (λ e.
            (mem (entry_name e) old_set ≡ true) × (mem (entry_name e) (names w new_set) ≡ false))
          b.remove
      × All
          (λ q. (has (trans_of_comps w q) b.install || has (trans_of_comps w q) b.upgrade) ≡ true)
          new_set
unfolding group_upgrade upgrade_bunch trans_of_comps trans_of_name
group_upgrade-splits w group_id p old group ho hg =
    let old_set = map (λ q. q.name) old.packages in
    let new_set = pkgs_of_type w group old.pkg_types in
    let old_name = λ (q : CompsPackage). mem q.name old_set in
    (
      upgrade_bunch w old_set new_set,
      rw (ho, hg, group_upgrade) refl,
      All-update_set _ [] _ tt (
          All-map-filter (trans_of_comps w) (λ q. not (old_name q)) _ _ (λ q h r. ground (arith, h))
            new_set (All-true new_set)),
      All-update_set _ [] _ tt
          (All-map-filter (trans_of_comps w) old_name _ _ (λ q h r. h) new_set (All-true new_set)),
      All-update_set _ [] _ tt (
          All-map-filter (trans_of_name w) (λ n. not (mem n (names w new_set))) _ _
            (λ n h r. (r, ground (arith, h))) old_set (All-mem old_set)),
      All-either old_name _ _ new_set
          (has-added (trans_of_comps w) (λ q. not (old_name q)) [] new_set _ refl)
          (has-added (trans_of_comps w) old_name [] new_set _ refl),
    )
