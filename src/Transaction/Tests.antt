-- ===== src/Transaction/Tests.antt =====
-- A system with two packages, and transactions over it.
use dnf.Base.{
  ℕ, String, ◌≡◌, refl, Bool, true, false, none, some, [], ◌∷◌, ◌++◌, ◌==◌, ℕ_eq, String_eq, not,
  any, if◌then◌else◌, ◌&&◌,
}
use dnf.Transaction.{
  Reason, user, dependency, Package, Items, Operation, get_reason, new, add_obsoleted, replace,
  add_upgrade, add_install, add_remove, operation, test_fail_safe, populate_loop, populate_rpm_ts,
  populated, modular_error, rpm_error, install_set, remove_set, get_repoid,
}
use dnf.Transaction.Links.{IsLinked}
use dnf.Transaction.Goal.{
  Goal, goal2transaction, for_each, upgrade_step, install_step, erase_step, downgrade_step,
  reinstall_step, pick_upgraded, find_name, remove_first, kept_obsoleted, best_reason,
  install_reason, keep_reason, remaining, set_reason,
}
use dnf.Transaction.Goal.Loops.{is_some, all}
use dnf.Transaction.Goal.Result.{
  new_packages, obsoletes_any, goal2transaction-Adds, goal2transaction-is_some,
}
use dnf.Transaction.Populate.{operations, is_unsafe, populate_rpm_ts-outcome}

abbrev build : ℕ → String → String → Package
build id name nevra = record {
  id = id;
  name = name;
  arch = "noarch";
  nevra = nevra;
  reponame = "updates";
  forced_repoid = none;
  from_cmdline = false;
  module_hotfixes = false;
  modularity_label = some true;
  in_active_module = true;
  idx = id;
}

abbrev old_tool : Package
old_tool = build 1 "tool" "tool-1"

abbrev new_tool : Package
new_tool = build 2 "tool" "tool-2"

abbrev library : Package
library = build 3 "library" "library-1"

abbrev history_reason : String → String → Reason
history_reason name arch = dependency

abbrev goal : Goal
goal = record {
  list_downgrades = [];
  list_reinstalls = [];
  list_installs = [];
  list_upgrades = new_tool ∷ [];
  list_erasures = library ∷ [];
  list_obsoleted = [];
  obsoleted_by_package = λ p. if p.id == 2 then old_tool ∷ [] else [];
  goal_reason = λ p. user;
  in_installonly_query = λ p. false;
  installed = old_tool ∷ library ∷ [];
  rpm_repo = λ p. "updates";
  reason_lower = λ a b. false;
}

program : Unit {0}
unfolding get_reason new add_obsoleted replace add_upgrade add_install add_remove operation
    test_fail_safe populate_loop populate_rpm_ts install_set remove_set get_repoid goal2transaction
    for_each upgrade_step install_step erase_step downgrade_step reinstall_step pick_upgraded
    find_name remove_first kept_obsoleted best_reason install_reason keep_reason remaining
    set_reason
program = tt

abbrev items : Items
items = add_remove history_reason library user (add_upgrade history_reason new_tool old_tool [] [])

goal2transaction-goal :
    (goal2transaction history_reason goal [] ≡ some items)
    × (install_set items ≡ new_tool ∷ [])
    × (remove_set items ≡ old_tool ∷ library ∷ [])
unfolding program
goal2transaction-goal = (refl, refl, refl)

goal2transaction-some : goal2transaction history_reason goal [] ≡ some items
unfolding program
goal2transaction-some = refl

goal2transaction-Adds_example :
    (IsLinked [] → IsLinked items)
    × (install_set items ≡ install_set [] ++ new_packages history_reason goal)
goal2transaction-Adds_example =
    goal2transaction-Adds history_reason goal [] items goal2transaction-some

goal2transaction-is_some_example : is_some (goal2transaction history_reason goal []) ≡ (
    all (obsoletes_any history_reason goal) goal.list_downgrades
    && all (obsoletes_any history_reason goal) goal.list_reinstalls
    && all (obsoletes_any history_reason goal) goal.list_upgrades)
goal2transaction-is_some_example = goal2transaction-is_some history_reason goal []

abbrev accepts : Operation → Bool
accepts op = true

populate_rpm_ts-outcome_example : populate_rpm_ts accepts items ≡ (
    if any (λ op. not (accepts op)) (operations items)
    then rpm_error
    else if any is_unsafe items
    then modular_error
    else populated (operations items))
populate_rpm_ts-outcome_example = populate_rpm_ts-outcome accepts items
