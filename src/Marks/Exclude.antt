-- ===== src/Marks/Exclude.antt =====
-- `Base._setup_excludes_includes` of dnf/base.py.
pub mod Excluded
use dnf.Base.{
  String, Bool, true, false, not, ◌&&◌, ◌||◌, Option, none, some, List, [], ◌∷◌, ◌++◌, mem, ◌==◌,
  String_eq, if◌then◌else◌,
}
use dnf.Marks.{Package, Query, no_package, union, intersection, has_any}

-- What is read of an enabled repository.
pub record Repo : Type 0 where
  pub id : String
  pub includepkgs : List String
  pub excludepkgs : List String

pub record Conf : Type 0 where
  pub disable_excludes : List String
  pub includepkgs : List String
  pub excludepkgs : List String

-- What the sack is asked; `none`: for all repositories.
pub data Call : Type 0 where
  add_includes : Query → Call
  set_use_includes : (reponame : Option String) → Call
  add_excludes : Query → Call
  modular_excludes : Call

abbrev pub is_empty : List String → Bool
is_empty [] = true
is_empty (spec ∷ specs) = false

-- `best_query`: what a subject's `get_best_query` gives, which is asked before the sack is.
module _ (sack : List Package) (best_query : String → Query) (with_modules : Bool) where
  -- The loops over the specs; `set(...)` has each of them.
  unfoldable pub union_best : Query → List String → Query
  union_best query [] = query
  union_best query (spec ∷ specs) = union_best (union query (best_query spec)) specs

  -- `filterm(reponame=r.id)`
  abbrev pub of_repo : String → Query → Query
  of_repo id query p = query p && (p.reponame == id)

  abbrev pub repo_query : Repo → List String → Query
  repo_query r specs = of_repo r.id (union_best no_package specs)

  -- The calls for the includes of the repositories, with the loop that finds them.
  unfoldable pub repo_includes : List String → List Repo → List Call
  repo_includes disabled [] = []
  repo_includes disabled (r ∷ repos) =
      let rest = repo_includes disabled repos in
      if mem r.id disabled || is_empty r.includepkgs
      then rest
      else add_includes (repo_query r r.includepkgs) ∷ set_use_includes (some r.id) ∷ rest

  unfoldable pub repo_excludes : List String → List Repo → List Call
  repo_excludes disabled [] = []
  repo_excludes disabled (r ∷ repos) =
      let rest = repo_excludes disabled repos in
      if mem r.id disabled || not (has_any sack (repo_query r r.excludepkgs))
      then rest
      else add_excludes (repo_query r r.excludepkgs) ∷ rest

  -- The global includes and excludes.
  unfoldable pub main_includes : Conf → List Call
  main_includes conf =
      if mem "main" conf.disable_excludes || is_empty conf.includepkgs
      then []
      else add_includes (union_best no_package conf.includepkgs) ∷ set_use_includes none ∷ []

  unfoldable pub main_excludes : Conf → List Call
  main_excludes conf =
      if mem "main" conf.disable_excludes
        || not (has_any sack (union_best no_package conf.excludepkgs))
      then []
      else add_excludes (union_best no_package conf.excludepkgs) ∷ []

  unfoldable pub setup_excludes_includes : Conf → List Repo → (only_main : Bool) → List Call
  unfolding repo_includes repo_excludes main_includes main_excludes
  setup_excludes_includes conf repos only_main =
      if mem "all" conf.disable_excludes && with_modules
      then modular_excludes ∷ []
      else main_includes conf
        ++ main_excludes conf
        ++ (if only_main then [] else repo_includes conf.disable_excludes repos)
        ++ (if only_main then [] else repo_excludes conf.disable_excludes repos)
        ++ (if not only_main && with_modules then modular_excludes ∷ [] else [])
