-- ===== src/Transaction/Goal.antt =====
-- `Base._goal2transaction` of dnf/base.py: the solved goal made into the items of a transaction.
pub mod Loops
pub mod Result
use dnf.Base.{
  ℕ, zero, suc, ◌+◌, String, Bool, true, false, not, ◌&&◌, ◌||◌, Option, none, some, List, [], ◌∷◌,
  ◌++◌, filter, any, ◌==◌, ℕ_eq, String_eq, if◌then◌else◌,
}
use dnf.Transaction.{
  Action, reason_change, Reason, Package, Item, Items, get_reason, add_downgrade, add_reinstall,
  add_upgrade, add_install, add_remove,
}

-- libdnf's solved goal, and what the queries say of the system.
pub record Goal : Type 0 where
  pub list_downgrades : List Package
  pub list_reinstalls : List Package
  pub list_installs : List Package
  pub list_upgrades : List Package
  pub list_erasures : List Package
  pub list_obsoleted : List Package
  pub obsoleted_by_package : Package → List Package
  pub goal_reason : Package → Reason
  pub in_installonly_query : Package → Bool
  pub installed : List Package
  pub rpm_repo : Package → String
  -- TransactionItemReasonCompare(a, b) == -1
  pub reason_lower : Reason → Reason → Bool

abbrev pub same : Package → Package → Bool
same p q = p.id == q.id

-- The packages of the same NEVRA, the last one first, before the others in their order.
pub reinstalled_first : String → List Package → List Package → List Package
reinstalled_first nevra_pkg obsoletes [] = obsoletes
reinstalled_first nevra_pkg obsoletes (obs_pkg ∷ obs) =
    reinstalled_first nevra_pkg
      (if obs_pkg.nevra == nevra_pkg then obs_pkg ∷ obsoletes else obsoletes ++ obs_pkg ∷ []) obs

-- The first package with a name.
unfoldable pub find_name : String → List Package → Option Package
find_name name [] = none
find_name name (i ∷ obs) = let rest = find_name name obs in if i.name == name then some i else rest

-- `obs.remove(upgraded)`
unfoldable pub remove_first : Package → List Package → List Package
remove_first p [] = []
remove_first p (i ∷ obs) = let rest = remove_first p obs in if same i p then obs else i ∷ rest

-- The upgraded package and the others: the first with the same name, else the first; `none` is
-- IndexError, of an empty list.
unfoldable pub pick_upgraded : Package → List Package → Option (Package × List Package)
unfolding find_name remove_first
pick_upgraded pkg [] = none
pick_upgraded pkg (first ∷ others) = elim (find_name pkg.name (first ∷ others)) [
  | none ↦ some (first, others)
  | some upgraded ↦ some (upgraded, remove_first upgraded (first ∷ others))
]

-- The steps of the loops, for packages one after another. `none` is an exception.
unfoldable pub for_each : (Package → Items → Option Items) → List Package → Items → Option Items
for_each step [] ts = some ts
for_each step (pkg ∷ pkgs) ts = elim (step pkg ts) [
  | none ↦ none
  | some ts2 ↦ for_each step pkgs ts2
]

module _ (history_reason : String → String → Reason) (goal : Goal) where
  unfoldable pub downgrade_step : Package → Items → Option Items
  unfolding add_downgrade
  downgrade_step pkg ts = elim (goal.obsoleted_by_package pkg) [
    | [] ↦ none
    | downgraded ∷ others ↦ some (add_downgrade history_reason pkg downgraded others ts)
  ]

  unfoldable pub reinstall_step : Package → Items → Option Items
  unfolding add_reinstall reinstalled_first
  reinstall_step pkg ts = elim (reinstalled_first pkg.nevra [] (goal.obsoleted_by_package pkg)) [
    | [] ↦ none
    | reinstalled ∷ others ↦ some (add_reinstall history_reason pkg reinstalled others ts)
  ]

  -- The obsoleted packages of `all_obsoleted`, and those with the package's own name.
  unfoldable pub kept_obsoleted : Package → List Package → List Package
  kept_obsoleted pkg obs =
      filter (λ i. any (λ o. same i o) goal.list_obsoleted || (i.name == pkg.name)) obs

  -- The best reason of the obsoleted packages.
  unfoldable pub best_reason : Reason → List Package → Reason
  unfolding get_reason
  best_reason reason [] = reason
  best_reason reason (obsolete ∷ obs) =
      let reason_obsolete = get_reason history_reason obsolete in
      best_reason (if goal.reason_lower reason reason_obsolete then reason_obsolete else reason) obs

  unfoldable pub install_reason : Package → Reason
  unfolding get_reason
  install_reason pkg =
      if goal.in_installonly_query pkg
        && any (λ i. goal.in_installonly_query i && (i.name == pkg.name)) goal.installed
      then get_reason history_reason pkg
      else goal.goal_reason pkg

  unfoldable pub install_step : Package → Items → Option Items
  unfolding add_install kept_obsoleted best_reason install_reason
  install_step pkg ts =
      let obs = kept_obsoleted pkg (goal.obsoleted_by_package pkg) in
      some (add_install history_reason pkg obs (some (best_reason (install_reason pkg) obs)) ts)

  unfoldable pub upgrade_step : Package → Items → Option Items
  unfolding add_install add_upgrade kept_obsoleted pick_upgraded
  upgrade_step pkg ts = elim (pick_upgraded pkg (goal.obsoleted_by_package pkg)) [
    | none ↦ none
    | some (upgraded, obs) ↦ some (
        if goal.in_installonly_query pkg
        then add_install history_reason pkg (kept_obsoleted pkg obs) none ts
        else add_upgrade history_reason pkg upgraded (kept_obsoleted pkg obs) ts)
  ]

  -- The installed packages that remain, with the name and the architecture of an erased one.
  unfoldable pub remaining : Package → List Package
  remaining pkg =
      filter
        (λ i.
          not (any (λ e. same i e) goal.list_erasures)
          && (i.name == pkg.name)
          && (i.arch == pkg.arch))
        goal.installed

  -- `SwdbInterface.set_reason`
  unfoldable pub set_reason : Package → Reason → Items → Items
  set_reason pkg reason ts =
      ts
      ++ record {
        pkg = pkg;
        repoid = goal.rpm_repo pkg;
        action = reason_change;
        reason = reason;
        replaced_by = [];
      }
        ∷ []

  unfoldable pub keep_reason : List Package → Items → Items
  unfolding get_reason set_reason
  keep_reason [] ts = ts
  keep_reason (first ∷ others) ts = set_reason first (get_reason history_reason first) ts

  unfoldable pub erase_step : Package → Items → Option Items
  unfolding add_remove keep_reason remaining
  erase_step pkg ts =
      some (add_remove history_reason pkg (goal.goal_reason pkg) (keep_reason (remaining pkg) ts))

  -- One loop after another.
  abbrev pub and_then : Option Items → (Items → Option Items) → Option Items
  and_then none loop = none
  and_then (some ts) loop = loop ts

  unfoldable pub goal2transaction : Items → Option Items
  unfolding for_each downgrade_step reinstall_step install_step upgrade_step erase_step
  goal2transaction ts =
      and_then
        (and_then
          (and_then
            (and_then (for_each downgrade_step goal.list_downgrades ts)
              (for_each reinstall_step goal.list_reinstalls))
            (for_each install_step goal.list_installs))
          (for_each upgrade_step goal.list_upgrades))
        (for_each erase_step goal.list_erasures)
