-- ===== src/Marks/GroupSpecs/Grows.antt =====
-- What the operations on groups and environments do to the bunch that they add to.
use dnf.Base.{
  ℕ, ◌+◌, String, Bool, true, false, not, ◌&&◌, List, [], ◌∷◌, mem, All, ◌==◌, ℕ_eq, String_eq, ◌≡◌,
  Bool-cases, Option-cases, inl, inr,
}
use dnf.Comps.{Entry, has, TransactionBunch}
use dnf.Comps.Bunch.{is_wanted, iadd-disjoint}
use dnf.Comps.Solver.{World, Persistors, Result, comps_error, key_error, bunch}
use dnf.Marks.GroupSpecs.{
  Found, get, get_all, State, Ended, counted, comps_failed, key_failed, error, bunch_length,
  then_add, add_comps_trans, add_unless_empty, install_env, remove_group, remove_env, upgrade_group,
  upgrade_env, count_loop, install_group_unless, install_loop, env_group_install, env_group_remove,
  upgraded, upgrade_loop, upgrade_patterns, env_group_upgrade,
}

-- No entry that is to be removed is also to be installed, strictly or not, or upgraded.
abbrev pub IsDisjoint : TransactionBunch → Type 0
IsDisjoint b =
    All (λ e. (has e b.install ≡ false) × (has e b.install_opt ≡ false) × (has e b.upgrade ≡ false))
      b.remove

-- What comes to a bunch keeps it disjoint, and takes back nothing that it installs or upgrades.
abbrev pub Grows : TransactionBunch → TransactionBunch → Type 0
Grows a b =
    (IsDisjoint a → IsDisjoint b)
    × ((entry : Entry) → is_wanted entry a ≡ true → is_wanted entry b ≡ true)

pub Grows-refl : (a : TransactionBunch) → Grows a a
Grows-refl a = (λ h. h, λ entry h. h)

pub Grows-trans : (a b c : TransactionBunch) → Grows a b → Grows b c → Grows a c
Grows-trans a b c f g = (λ h. g.0 (f.0 h), λ entry h. g.1 entry (f.1 entry h))

abbrev GrowsTo : State → State × Ended → Type 0
GrowsTo s out = Grows s.comps_trans out.0.comps_trans

add_comps_trans-Grows :
    (r : Result × Persistors) (trans : TransactionBunch)
    → Grows trans (add_comps_trans r trans).0.comps_trans
unfolding add_comps_trans
add_comps_trans-Grows (bunch b, p) trans =
    (λ h. (iadd-disjoint trans b).0, λ entry h. (iadd-disjoint trans b).1 entry h)
add_comps_trans-Grows (comps_error, p) trans = Grows-refl trans
add_comps_trans-Grows (key_error, p) trans = Grows-refl trans

add_unless_empty-Grows :
    (r : Result × Persistors) (trans : TransactionBunch)
    → Grows trans (add_unless_empty r trans).0.comps_trans
unfolding add_unless_empty
add_unless_empty-Grows (bunch b, p) trans = elim (Bool-cases (bunch_length b == 0)) [
  | inl x ↦ rw (add_unless_empty, x) (Grows-refl trans)
  | inr x ↦ rw (add_unless_empty, x) (add_comps_trans-Grows (bunch b, p) trans)
]
add_unless_empty-Grows (comps_error, p) trans = add_comps_trans-Grows (comps_error, p) trans
add_unless_empty-Grows (key_error, p) trans = add_comps_trans-Grows (key_error, p) trans

then_add-Grows :
    (s : State) (out : State × Ended) (cnt : ℕ) (rest : State → ℕ → State × Ended)
    → GrowsTo s out
    → ((t : State) (n : ℕ) → GrowsTo t (rest t n))
    → GrowsTo s (then_add out cnt rest)
then_add-Grows s (t, counted n) cnt rest h k =
    Grows-trans s.comps_trans t.comps_trans _ h (k t (cnt + n))
then_add-Grows s (t, comps_failed) cnt rest h k = h
then_add-Grows s (t, key_failed) cnt rest h k = h
then_add-Grows s (t, error) cnt rest h k = h

-- A call for groups, with the patterns that it is given.
pub data Operation : Type 0 where
  install_op :
      (search : String → Found) (patterns : List String) (types : ℕ) (strict : Bool)
      (exclude_groups : List String)
      → Operation
  remove_op upgrade_op : (search : String → Found) (patterns : List String) → Operation

module _ (w : World) where
  -- The calls that a loop makes.
  abbrev GrowsAlways : (String → State → State × Ended) → Type 0
  GrowsAlways call = (id : String) (s : State) → GrowsTo s (call id s)

  count_loop-Grows :
      (call : String → State → State × Ended)
      → GrowsAlways call
      → (ids : List String) (s : State) (cnt : ℕ) → GrowsTo s (count_loop w call ids s cnt)
  unfolding count_loop
  count_loop-Grows call h [] s cnt = Grows-refl s.comps_trans
  count_loop-Grows call h (id ∷ ids) s cnt =
      then_add-Grows s (call id s) cnt (λ t n. count_loop w call ids t n) (h id s)
        (λ t n. count_loop-Grows call h ids t n)

  install_group_unless-Grows :
      (types : ℕ) (strict : Bool) (exclude_groups : List String)
      → GrowsAlways (install_group_unless w types strict exclude_groups)
  install_group_unless-Grows types strict exclude_groups id s =
      elim (Bool-cases (mem id exclude_groups)) [
        | inl x ↦ rw x (Grows-refl s.comps_trans)
        | inr x ↦ rw x (add_unless_empty-Grows _ s.comps_trans)
      ]

  install_loop-Grows :
      (search : String → Found) (types : ℕ) (strict : Bool) (exclude_groups patterns : List String)
      (s : State) (cnt : ℕ) (done : Bool)
      → GrowsTo s (install_loop w search types strict exclude_groups patterns s cnt done)
  unfolding install_loop
  install_loop-Grows search types strict exclude_groups [] s cnt done =
      elim (Bool-cases (not done && strict)) [
        | inl x ↦ rw (install_loop, x) (Grows-refl s.comps_trans)
        | inr x ↦ rw (install_loop, x) (Grows-refl s.comps_trans)
      ]
  install_loop-Grows search types strict exclude_groups (pattern ∷ patterns) s cnt done =
      elim (Option-cases (get search pattern)) [
        | inl x ↦
            rw (install_loop, x)
              (install_loop-Grows search types strict exclude_groups patterns s cnt false)
        | inr res ↦
            rw (install_loop, res.1)
              (then_add-Grows s
                (count_loop w (install_group_unless w types strict exclude_groups) res.0.groups s
                  cnt)
                0 _
                (count_loop-Grows (install_group_unless w types strict exclude_groups)
                  (install_group_unless-Grows types strict exclude_groups) res.0.groups s cnt)
                (λ t n.
                  then_add-Grows t
                    (count_loop w (λ id. install_env w id types strict exclude_groups)
                      res.0.environments t n)
                    0 _
                    (count_loop-Grows (λ id. install_env w id types strict exclude_groups)
                      (λ id u. add_unless_empty-Grows _ u.comps_trans) res.0.environments t n)
                    (λ u m.
                      install_loop-Grows search types strict exclude_groups patterns u m done)))
      ]

  env_group_remove-Grows :
      (search : String → Found) (patterns : List String) (s : State)
      → GrowsTo s (env_group_remove w search patterns s)
  unfolding env_group_remove
  env_group_remove-Grows search patterns s =
      elim (Option-cases (get_all search patterns (record { environments = []; groups = [] }))) [
        | inl x ↦ rw (env_group_remove, x) (Grows-refl s.comps_trans)
        | inr res ↦
            rw (env_group_remove, res.1)
              (then_add-Grows s (count_loop w (remove_env w) res.0.environments s 0) 0 _
                (count_loop-Grows (remove_env w) (λ id u. add_comps_trans-Grows _ u.comps_trans)
                  res.0.environments s 0)
                (λ t n.
                  count_loop-Grows (remove_group w) (λ id u. add_comps_trans-Grows _ u.comps_trans)
                    res.0.groups t n))
      ]

  upgraded-Grows :
      (s : State) (out : State × Ended) (b : Bool) (rest : State → Bool → State × Ended)
      → GrowsTo s out
      → ((t : State) (u : Bool) → GrowsTo t (rest t u))
      → GrowsTo s (upgraded w out b rest)
  upgraded-Grows s (t, counted n) b rest h k =
      Grows-trans s.comps_trans t.comps_trans _ h (k t true)
  upgraded-Grows s (t, comps_failed) b rest h k =
      Grows-trans s.comps_trans t.comps_trans _ h (k t b)
  upgraded-Grows s (t, key_failed) b rest h k = h
  upgraded-Grows s (t, error) b rest h k = h

  upgrade_loop-Grows :
      (call : String → State → State × Ended)
      → GrowsAlways call
      → (ids : List String) (s : State) (b : Bool) (rest : State → Bool → State × Ended)
      → ((t : State) (u : Bool) → GrowsTo t (rest t u))
      → GrowsTo s (upgrade_loop w call ids s b rest)
  unfolding upgrade_loop
  upgrade_loop-Grows call h [] s b rest k = k s b
  upgrade_loop-Grows call h (id ∷ ids) s b rest k =
      upgraded-Grows s (call id s) b (λ t u. upgrade_loop w call ids t u rest) (h id s)
        (λ t u. upgrade_loop-Grows call h ids t u rest k)

  upgrade_patterns-Grows :
      (search : String → Found) (patterns : List String) (s : State) (b : Bool)
      → GrowsTo s (upgrade_patterns w search patterns s b)
  unfolding upgrade_patterns
  upgrade_patterns-Grows search [] s true = Grows-refl s.comps_trans
  upgrade_patterns-Grows search [] s false = Grows-refl s.comps_trans
  upgrade_patterns-Grows search (pattern ∷ patterns) s b =
      elim (Option-cases (get search pattern)) [
        | inl x ↦ rw (upgrade_patterns, x) (upgrade_patterns-Grows search patterns s b)
        | inr res ↦
            rw (upgrade_patterns, res.1)
              (upgrade_loop-Grows (upgrade_env w) (λ id u. add_comps_trans-Grows _ u.comps_trans)
                res.0.environments s b _
                (λ t u.
                  upgrade_loop-Grows (upgrade_group w)
                    (λ id v. add_comps_trans-Grows _ v.comps_trans) res.0.groups t u _
                    (λ v x. upgrade_patterns-Grows search patterns v x)))
      ]

  pub env_group_install-Grows :
      (search : String → Found) (patterns : List String) (types : ℕ) (strict : Bool)
      (exclude_groups : List String) (s : State)
      → GrowsTo s (env_group_install w search patterns types strict exclude_groups s)
  unfolding env_group_install
  env_group_install-Grows search patterns types strict exclude_groups s =
      install_loop-Grows search types strict exclude_groups patterns s 0 true

  abbrev pub perform : Operation → State → State × Ended
  perform (install_op search patterns types strict exclude_groups) s =
      env_group_install w search patterns types strict exclude_groups s
  perform (remove_op search patterns) s = env_group_remove w search patterns s
  perform (upgrade_op search patterns) s = env_group_upgrade w search patterns s

  -- One call after the other, whatever they raise.
  abbrev pub perform_all : List Operation → State → State
  perform_all [] s = s
  perform_all (op ∷ ops) s = perform_all ops (perform op s).0

  perform-Grows : (op : Operation) (s : State) → GrowsTo s (perform op s)
  unfolding env_group_upgrade
  perform-Grows (install_op search patterns types strict exclude_groups) s =
      env_group_install-Grows search patterns types strict exclude_groups s
  perform-Grows (remove_op search patterns) s = env_group_remove-Grows search patterns s
  perform-Grows (upgrade_op search patterns) s = upgrade_patterns-Grows search patterns s false

  -- Whatever groups and environments are installed, removed and upgraded, one call after the other
  -- and whatever they raise: where no entry was both to be removed and to be installed or upgraded,
  -- none is, and the entries that were to be installed or upgraded still are. Entries are compared
  -- whole, so this says nothing of two entries of one package.
  perform_all-Grows :
      (ops : List Operation) (s : State) → Grows s.comps_trans (perform_all ops s).comps_trans
  perform_all-Grows [] s = Grows-refl s.comps_trans
  perform_all-Grows (op ∷ ops) s =
      Grows-trans s.comps_trans (perform op s).0.comps_trans _ (perform-Grows op s)
        (perform_all-Grows ops (perform op s).0)
