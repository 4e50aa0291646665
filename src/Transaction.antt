-- ===== src/Transaction.antt =====
-- dnf/transaction.py and `RPMTransaction` of dnf/db/group.py: the items of a transaction, and what
-- rpm is asked to do.
pub mod Goal
mod Links
mod Populate
mod Tests
use dnf.Base.{
  ℕ, zero, suc, ◌+◌, String, Bool, true, false, not, ◌&&◌, ◌||◌, Option, none, some, List, [], ◌∷◌,
  ◌++◌, length, filter, map, ◌==◌, ℕ_eq, String_eq, if◌then◌else◌,
}

-- libdnf's names for what happens to a package.
pub data Action : Type 0 where
  install downgrade downgraded obsolete obsoleted upgrade upgraded remove reinstall reinstalled :
      Action
  reason_change : Action

pub data Reason : Type 0 where
  unknown dependency user clean weak_dependency group : Reason

-- FORWARD_ACTIONS: packages that appeared on the system.
abbrev pub is_forward : Action → Bool
is_forward install = true
is_forward downgrade = true
is_forward obsolete = true
is_forward upgrade = true
is_forward reinstall = true
is_forward _ = false

-- BACKWARD_ACTIONS: packages that got removed from the system.
abbrev pub is_backward : Action → Bool
is_backward downgraded = true
is_backward obsoleted = true
is_backward upgraded = true
is_backward remove = true
is_backward _ = false

-- What a transaction reads of a package. `modularity_label`: whether the header's label is set;
-- `none` is ValueError.
pub record Package : Type 0 where
  pub id : ℕ
  pub name : String
  pub arch : String
  pub nevra : String
  pub reponame : String
  pub forced_repoid : Option String
  pub from_cmdline : Bool
  pub module_hotfixes : Bool
  pub modularity_label : Option Bool
  pub in_active_module : Bool
  pub idx : ℕ

-- An item of the history database, with the package that `_swdb_ti_pkg` has for it. Items are
-- named by their position.
pub record Item : Type 0 where
  pub pkg : Package
  pub repoid : String
  pub action : Action
  pub reason : Reason
  pub replaced_by : List ℕ

abbrev pub Items : Type 0
Items = List Item

pub get_repoid : Package → String
get_repoid p = elim p.forced_repoid [
  | none ↦ p.reponame
  | some repoid ↦ if repoid == "" then p.reponame else repoid
]

-- `resolveRPMTransactionItemReason(name, arch, -1)` of the database is `history_reason`.
module _ (history_reason : String → String → Reason) where
  pub get_reason : Package → Reason
  get_reason p = history_reason p.name p.arch

  abbrev reason_or : Package → Option Reason → Reason
  reason_or p none = get_reason p
  reason_or p (some reason) = reason

  -- `new`; the new item's name is the number of items before it.
  pub new : Package → Action → Option Reason → List ℕ → Items → Items
  unfolding get_reason get_repoid
  new p action reason replaced_by items =
      items
      ++ record {
        pkg = p;
        repoid = get_repoid p;
        action = action;
        reason = reason_or p reason;
        replaced_by = replaced_by;
      }
        ∷ []

  -- `_add_obsoleted`
  pub add_obsoleted : List Package → ℕ → Items → Items
  unfolding new
  add_obsoleted [] replaced_by items = items
  add_obsoleted (obs ∷ obsoleted_pkgs) replaced_by items =
      add_obsoleted obsoleted_pkgs replaced_by (new obs obsoleted none (replaced_by ∷ []) items)

  -- A package that comes in place of `old`, and of those that it obsoletes.
  pub replace : Action → Action → Package → Package → List Package → Items → Items
  unfolding new add_obsoleted
  replace forward backward p old obsoleted_pkgs items =
      let ti_new = length items in
      add_obsoleted obsoleted_pkgs ti_new
        (new old backward none (ti_new ∷ []) (new p forward none [] items))

  pub add_downgrade : Package → Package → List Package → Items → Items
  unfolding replace
  add_downgrade p old obsoleted_pkgs items = replace downgrade downgraded p old obsoleted_pkgs items

  pub add_reinstall : Package → Package → List Package → Items → Items
  unfolding replace
  add_reinstall p old obsoleted_pkgs items =
      replace reinstall reinstalled p old obsoleted_pkgs items

  pub add_upgrade : Package → Package → List Package → Items → Items
  unfolding replace
  add_upgrade p old obsoleted_pkgs items = replace upgrade upgraded p old obsoleted_pkgs items

  abbrev pub or_user : Option Reason → Reason
  or_user none = user
  or_user (some reason) = reason

  pub add_install : Package → List Package → Option Reason → Items → Items
  unfolding new add_obsoleted
  add_install p obsoleted_pkgs reason items =
      add_obsoleted obsoleted_pkgs (length items) (new p install (some (or_user reason)) [] items)

  -- `reason or TransactionItemReason_USER`: the reason UNKNOWN is 0.
  abbrev pub user_if_unset : Reason → Reason
  user_if_unset unknown = user
  user_if_unset reason = reason

  pub add_remove : Package → Reason → Items → Items
  unfolding new
  add_remove old reason items = new old remove (some (user_if_unset reason)) [] items

-- What rpm's transaction set is asked to do.
pub data Operation : Type 0 where
  add_install_op : Package → (how : String) → Operation
  add_reinstall_op : Package → Operation
  add_erase_op : ℕ → Operation

-- `_test_fail_safe`: 1 for a modular package of no active module.
pub test_fail_safe : Package → ℕ
test_fail_safe p = if p.from_cmdline || p.module_hotfixes then 0 else elim p.modularity_label [
  | none ↦ 0
  | some label ↦ if label && not p.in_active_module then 1 else 0
]

pub data Populated : Type 0 where
  populated : List Operation → Populated
  rpm_error modular_error : Populated

-- The branches of `_populate_rpm_ts`: what is asked of rpm, and whether the fail-safe test is made.
pub operation : Item → Option Operation
operation item = elim item.action [
  | install ↦ some (add_install_op item.pkg "i")
  | downgrade ↦ some (add_install_op item.pkg "u")
  | obsolete ↦ some (add_install_op item.pkg "u")
  | upgrade ↦ some (add_install_op item.pkg "u")
  | reinstall ↦ some (add_reinstall_op item.pkg)
  | reason_change ↦ none
  | _ ↦ some (add_erase_op item.pkg.idx)
]

-- The loop of `_populate_rpm_ts`. `accepts`: does rpm take the operation, or raise rpm.error?
module _ (accepts : Operation → Bool) where
  pub populate_loop : ℕ → List Operation → Items → Populated
  unfolding operation test_fail_safe
  populate_loop modular_problems ts [] =
      if modular_problems == 0 then populated ts else modular_error
  populate_loop modular_problems ts (item ∷ items) = elim (operation item) [
    | none ↦ populate_loop modular_problems ts items
    | some op ↦ elim (accepts op) [
      | false ↦ rpm_error
      | true ↦
          populate_loop
            (modular_problems + (if is_forward item.action then test_fail_safe item.pkg else 0))
            (ts ++ op ∷ []) items
    ]
  ]

  pub populate_rpm_ts : Items → Populated
  unfolding populate_loop
  populate_rpm_ts items = populate_loop 0 [] items

abbrev pub is_removed : Item → Bool
is_removed item = elim item.action [ reinstalled ↦ true | other ↦ is_backward other ]

-- `install_set` and `remove_set`, in the order of the items.
pub install_set : Items → List Package
install_set items = map (λ i. i.pkg) (filter (λ i. is_forward i.action) items)

pub remove_set : Items → List Package
remove_set items = map (λ i. i.pkg) (filter is_removed items)

pub first_source : List Package → Option Package
first_source [] = none
first_source (p ∷ ps) = let rest = first_source ps in if p.arch == "src" then some p else rest

-- `_rpm_limitations`: a source package that would be installed. The source takes the first of a set.
pub rpm_limitations : Items → Option Package
unfolding install_set first_source
rpm_limitations items = first_source (install_set items)
