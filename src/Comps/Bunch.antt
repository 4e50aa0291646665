-- ===== src/Comps/Bunch.antt =====
-- `TransactionBunch.__iadd__`.
use dnf.Base.{
  Bool, true, false, not, ◌||◌, List, [], ◌∷◌, ◌++◌, filter, All, ◌≡◌, refl, arith, Bool-cases, inl,
  inr,
}
use dnf.Comps.{Entry, has, add_entry, update_set, difference, TransactionBunch, iadd}

-- Is an entry among those that come or stay?
abbrev pub is_wanted : Entry → TransactionBunch → Bool
is_wanted entry b = has entry b.install || has entry b.install_opt || has entry b.upgrade

pub has-append :
    (entry : Entry) (xs ys : List Entry) → has entry (xs ++ ys) ≡ (has entry xs || has entry ys)
has-append entry [] ys = refl
has-append entry (x ∷ xs) ys = ground (arith, has-append entry xs ys)

pub has-update_set :
    (entry : Entry) (set other : List Entry)
    → has entry set ≡ true
    → has entry (update_set set other) ≡ true
unfolding update_set add_entry
has-update_set entry set [] h = h
has-update_set entry set (e ∷ other) h =
    has-update_set entry (add_entry e set) other (ground (arith, h, has-append entry set (e ∷ [])))

All-filter :
    (P : Entry → Type 0) (q : Entry → Bool) (set : List Entry) → All P set → All P (filter q set)
All-filter P q [] h = tt
All-filter P q (e ∷ set) h = elim (Bool-cases (q e)) [
  | inl t ↦ rw t (h.0, All-filter P q set h.1)
  | inr t ↦ rw t (All-filter P q set h.1)
]

All-difference :
    (P : Entry → Type 0) (set other : List Entry) → All P set → All P (difference set other)
unfolding difference
All-difference P set other h = All-filter P (λ e. not (has e other)) set h

difference-All : (set other : List Entry) → All (λ e. has e other ≡ false) (difference set other)
unfolding difference
difference-All [] other = tt
difference-All (e ∷ set) other = elim (Bool-cases (has e other)) [
  | inl t ↦ rw t (difference-All set other)
  | inr t ↦ rw t (t, difference-All set other)
]

All-three :
    (P Q R : Entry → Type 0) (set : List Entry)
    → All P set
    → All Q set
    → All R set
    → All (λ e. P e × Q e × R e) set
All-three P Q R [] p q r = tt
All-three P Q R (e ∷ set) p q r = ((p.0, q.0, r.0), All-three P Q R set p.1 q.1 r.1)

wanted_mono :
    (a b c x y z : Bool)
    → (a ≡ true → x ≡ true)
    → (b ≡ true → y ≡ true)
    → (c ≡ true → z ≡ true)
    → (a || b || c) ≡ true
    → (x || y || z) ≡ true
wanted_mono a b c x y z f g k h = ground (arith, f, g, k, h)

-- In the sum of two bunches, no entry that is to be removed is also to be installed, strictly or
-- not, or upgraded; and what the first bunch installs, strictly or not, or upgrades, the sum does.
pub iadd-disjoint :
    (self other : TransactionBunch)
    → let b = iadd self other in
      All
        (λ e. (has e b.install ≡ false) × (has e b.install_opt ≡ false) × (has e b.upgrade ≡ false))
        b.remove
      × ((entry : Entry) → is_wanted entry self ≡ true → is_wanted entry b ≡ true)
unfolding iadd
iadd-disjoint self other =
    let install = update_set self.install other.install in
    let install_opt = update_set self.install_opt other.install_opt in
    let upgrade = update_set self.upgrade other.upgrade in
    let left = update_set self.remove other.remove in
    (
      All-three _ _ _ _
          (All-difference _ (difference (difference left install) install_opt) upgrade
            (All-difference _ (difference left install) install_opt (difference-All left install)))
          (All-difference _ (difference (difference left install) install_opt) upgrade
            (difference-All (difference left install) install_opt))
          (difference-All (difference (difference left install) install_opt) upgrade),
      λ entry h.
          wanted_mono (has entry self.install) (has entry self.install_opt) (has entry self.upgrade)
            _ _ _ (has-update_set entry self.install other.install)
            (has-update_set entry self.install_opt other.install_opt)
            (has-update_set entry self.upgrade other.upgrade) h,
    )
