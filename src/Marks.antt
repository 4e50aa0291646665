-- ===== src/Marks.antt =====
-- What dnf/base.py keeps away from the solver and what it asks the solver for.
--
-- A query of hawkey is a set of packages of the sack, so a test on them; its operations are those on
-- sets. What libdnf finds is an argument of the definitions that use it.
pub mod Exclude
pub mod Multiarch
pub mod Groups
pub mod Packages
pub mod Subjects
pub mod Specs
pub mod Autoremove
pub mod GroupSpecs
mod Queries
pub mod Tests
use dnf.Base.{
  ℕ, String, Bool, true, false, not, ◌&&◌, ◌||◌, Option, List, [], ◌∷◌, filter, any, mem, ◌==◌,
  ℕ_eq, String_eq,
}

-- A package of the sack; `id`: what tells it from the others.
pub record Package : Type 0 where
  pub id : ℕ
  pub name : String
  pub arch : String
  pub evr : String
  pub reponame : String

abbrev pub Query : Type 0
Query = Package → Bool

abbrev pub no_package : Query
no_package p = false

abbrev pub union : Query → Query → Query
union q r p = q p || r p

abbrev pub intersection : Query → Query → Query
intersection q r p = q p && r p

abbrev pub difference : Query → Query → Query
difference q r p = q p && not (r p)

abbrev pub installed : Query → Query
installed q p = q p && (p.reponame == "@System")

abbrev pub available : Query → Query
available q p = q p && not (p.reponame == "@System")

-- `bool(query)`, of a sack
abbrev pub has_any : List Package → Query → Bool
has_any sack q = any q sack

-- `run()`: the packages of a query, in the order of the sack.
abbrev pub run : List Package → Query → List Package
run sack q = filter q sack

-- What a selector is set to: packages, of a repository or of any; or a package on a condition.
pub data Selector : Type 0 where
  by_packages : Query → (reponame : Option String) → Selector
  by_condition : (name requires : String) → Selector

-- What the goal and the history are asked, and what is logged.
pub data Ask : Type 0 where
  goal_install : Selector → (is_optional : Bool) → Ask
  goal_upgrade : Query → Ask
  goal_distupgrade : Selector → Ask
  goal_distupgrade_all : Ask
  goal_erase : Package → (clean_deps : Bool) → Ask
  set_dependency : Package → Ask
  group_member : String → Ask
  no_match : String → (arch : Option String) → Ask
  already_installed : Package → Ask

-- What a subject is solved to: its packages, and the name and architecture that it gives, if it is
-- read as a NEVRA.
pub record Solution : Type 0 where
  pub query : Query
  pub is_nevra : Bool
  pub name : Option String
  pub has_just_name : Bool
  pub is_arch_specified : Bool

-- The configuration, the sack and what libdnf finds in it.
pub record Setting : Type 0 where
  pub multilib_all : Bool
  pub obsoletes : Bool
  pub clean_requirements_on_remove : Bool
  pub basearch : String
  pub sack : List Package
  -- `query().filterm(obsoletes=q)`
  pub obsoleting : Query → Query
  -- `q.filter(latest_per_arch_by_priority=True)`
  pub latest : Query → Query
  -- `q._na_dict()`
  pub na_dict : Query → List ((String × String) × List Package)
  -- `q._safe_to_remove(...)`
  pub safe_to_remove : Query → Query
  -- `history.group.is_removable_pkg(name)`, where it does not raise
  pub is_removable : String → Bool
  pub strict : Bool
  -- how a query compares two texts of epoch, version and release
  pub same_evr : String → String → Bool
  -- `a == b` and `a < b` of packages
  pub equal : Package → Package → Bool
  pub lower : Package → Package → Bool
  -- `q.latest()`, `q.upgrades()` and `q.downgrades()`
  pub latest_evr : Query → Query
  pub upgrades : Query → Query
  pub downgrades : Query → Query
  -- `get_best_solution`, as the sack is and with its excludes ignored
  pub best_solution : String → Solution
  pub unfiltered_query : String → Query
  -- the same with the arguments of `install`, and of `remove`
  pub install_solution : String → Solution
  pub remove_query : String → Query
  -- `query(flags=IGNORE_REGULAR_EXCLUDES)`
  pub regular_query : Query
  pub is_glob_pattern : String → Bool
  -- `_get_best_selectors`
  pub best_selectors : String → Option String → List Selector
  -- `str(pkg)`
  pub nevra : Package → String
  -- `q._name_dict().keys()`
  pub query_names : Query → List String
  -- the same of what is not installed, for `distro_sync`
  pub sync_selectors : String → List Selector
  -- `history.repo(pkg)`
  pub repo : Package → String
  -- `_update_security_filters`, and the filters of `_update_security_options`
  pub security_filters : List Query
  pub security_options : List (Query → Query)
