-- ===== src/Comps.antt =====
-- `CompsTransPkg` and `TransactionBunch` of dnf/comps.py, and what `GroupPersistor` and
-- `EnvironmentPersistor` of dnf/db/group.py say can be removed.
pub mod Bunch
pub mod Removable
pub mod Tracked
pub mod Solver
pub mod Environment
pub mod Upgrade
mod Tests
use dnf.Base.{
  ℕ, String, Bool, true, false, not, ◌&&◌, ◌||◌, Option, none, some, List, [], ◌∷◌, ◌++◌, filter,
  any, mem, ◌==◌, String_eq, ℕ_eq, if◌then◌else◌,
}
use dnf.Base.Dict.{add}

-- The package types of libcomps, and those of libdnf that stand for them.
pub data Kind : Type 0 where
  conditional default mandatory optional : Kind

-- A package of the comps data. `handle`: packages that libcomps takes as equal have the same one.
pub record CompsPackage : Type 0 where
  pub name : String
  pub handle : ℕ
  pub kind : Kind
  pub basearchonly : Bool
  pub requires : Option String

-- What stands in the sets of a bunch: a package of the comps data as it is, or a CompsTransPkg.
-- The two hash unlike each other, so none of one sort equals one of the other.
pub data Entry : Type 0 where
  raw_package : CompsPackage → Entry
  trans_pkg : (name : String) (basearchonly : Bool) (option : ℕ) (requires : Option String) → Entry

abbrev pub entry_name : Entry → String
entry_name (raw_package p) = p.name
entry_name (trans_pkg name b o r) = name

abbrev same_bool : Bool → Bool → Bool
same_bool true b = b
same_bool false b = not b

abbrev same_requires : Option String → Option String → Bool
same_requires none none = true
same_requires (some r) (some s) = r == s
same_requires _ _ = false

-- `CompsTransPkg.__eq__`
abbrev pub same : Entry → Entry → Bool
same (raw_package p) (raw_package q) = p.handle == q.handle
same (trans_pkg n b o r) (trans_pkg m c p s) =
    (n == m) && same_bool b c && (o == p) && same_requires r s
same _ _ = false

abbrev pub has : Entry → List Entry → Bool
has entry set = any (same entry) set

-- `set.add`, `set.update` and the difference of sets.
unfoldable pub add_entry : Entry → List Entry → List Entry
add_entry entry set = if has entry set then set else set ++ entry ∷ []

unfoldable pub update_set : List Entry → List Entry → List Entry
unfolding add_entry
update_set set [] = set
update_set set (entry ∷ other) = update_set (add_entry entry set) other

unfoldable pub difference : List Entry → List Entry → List Entry
difference set other = filter (λ entry. not (has entry other)) set

pub record TransactionBunch : Type 0 where
  pub install : List Entry
  pub install_opt : List Entry
  pub remove : List Entry
  pub upgrade : List Entry

abbrev pub empty_bunch : TransactionBunch
empty_bunch = record { install = []; install_opt = []; remove = []; upgrade = [] }

-- `__iadd__`
unfoldable pub iadd : TransactionBunch → TransactionBunch → TransactionBunch
unfolding update_set difference
iadd self other =
    let install = update_set self.install other.install in
    let install_opt = update_set self.install_opt other.install_opt in
    let upgrade = update_set self.upgrade other.upgrade in
    record {
      install = install;
      install_opt = install_opt;
      remove =
          difference
            (difference (difference (update_set self.remove other.remove) install) install_opt)
            upgrade;
      upgrade = upgrade;
    }

-- A package and a group of the history database.
pub record SwdbPackage : Type 0 where
  pub name : String
  pub installed : Bool
  pub kind : Kind

pub record SwdbGroup : Type 0 where
  pub group_id : String
  pub pkg_types : ℕ
  pub packages : List SwdbPackage

abbrev pub lists : String → SwdbGroup → Bool
lists pkg_name group = any (λ pkg. (pkg.name == pkg_name) && pkg.installed) group.packages

-- `package_groups.remove(group_id)`, for each installed package of the name; `none` is KeyError.
unfoldable pub drop_group : String → String → List SwdbPackage → List String → Option (List String)
drop_group pkg_name group_id [] package_groups = some package_groups
drop_group pkg_name group_id (pkg ∷ packages) package_groups =
    let left = filter (λ g. not (g == group_id)) package_groups in
    let skipped = drop_group pkg_name group_id packages package_groups in
    let removed = drop_group pkg_name group_id packages left in
    if (pkg.name == pkg_name) && pkg.installed
    then if mem group_id package_groups then removed else none
    else skipped

-- The loop over the removed groups.
unfoldable pub drop_removed :
    String → List (String × SwdbGroup) → List String → Option (List String)
unfolding drop_group
drop_removed pkg_name [] package_groups = some package_groups
drop_removed pkg_name ((group_id, group) ∷ removed) package_groups =
    elim (drop_group pkg_name group_id group.packages package_groups) [
      | none ↦ none
      | some left ↦ drop_removed pkg_name removed left
    ]

-- The loop over the installed groups: `package_groups.add(group_id)`.
unfoldable pub add_installed : String → List (String × SwdbGroup) → List String → List String
add_installed pkg_name [] package_groups = package_groups
add_installed pkg_name ((group_id, group) ∷ installed) package_groups =
    add_installed pkg_name installed
      (if lists pkg_name group then add group_id package_groups else package_groups)

abbrev pub is_empty : List String → Bool
is_empty [] = true
is_empty (g ∷ gs) = false

-- `is_removable_pkg`. `has_group_reason`: the package's reason in the database is GROUP;
-- `package_groups`: the groups that the database has for it, each once.
unfoldable pub is_removable_pkg :
    (has_group_reason : Bool) (package_groups : List String)
    → (removed installed : List (String × SwdbGroup)) → String
    → Option Bool
unfolding drop_removed add_installed
is_removable_pkg has_group_reason package_groups removed installed pkg_name =
    if has_group_reason
    then elim (drop_removed pkg_name removed package_groups) [
      | none ↦ none
      | some left ↦ some (is_empty (add_installed pkg_name installed left))
    ]
    else some false
