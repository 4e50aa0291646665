-- ===== src/Marks/Exclude/Excluded.antt =====
-- Which packages are excluded and included.
use dnf.Base.{
  String, Bool, true, false, not, ◌&&◌, ◌||◌, Option, none, some, List, [], ◌∷◌, ◌++◌, any, All,
  All-imp, mem, ◌==◌, String_eq, if◌then◌else◌, ◌≡◌, refl, arith,
}
use dnf.Marks.{Package, Query, no_package, union}
use dnf.Marks.Queries.{any-append, All-found}
use dnf.Marks.Exclude.{
  Repo, Conf, Call, add_includes, set_use_includes, add_excludes, modular_excludes, is_empty,
  union_best, repo_query, repo_includes, repo_excludes, main_includes, main_excludes,
  setup_excludes_includes,
}

-- Does a call exclude the package, or include it?
abbrev pub excludes : Package → Call → Bool
excludes p (add_excludes query) = query p
excludes p _ = false

abbrev pub includes : Package → Call → Bool
includes p (add_includes query) = query p
includes p _ = false

-- Is the use of includes switched on, for all repositories or for one?
abbrev pub uses_includes : Option String → Call → Bool
uses_includes none (set_use_includes none) = true
uses_includes (some id) (set_use_includes (some r)) = r == id
uses_includes _ _ = false

any-five :
    {A : Type 0} (q : A → Bool) (a b c d e : List A)
    → any q (a ++ b ++ c ++ d ++ e) ≡ (any q a || any q b || any q c || any q d || any q e)
any-five q a b c d e =
    rw
      (
        any-append q (a ++ b ++ c ++ d) e,
        any-append q (a ++ b ++ c) d,
        any-append q (a ++ b) c,
        any-append q a b,
      )
      (ground arith)

module _ (sack : List Package) (best_query : String → Query) (with_modules : Bool) where
  abbrev pub spec_matches : List String → Query
  spec_matches specs p = any (λ spec. best_query spec p) specs

  union_best-matched :
      (query : Query) (specs : List String) (p : Package)
      → union_best sack best_query with_modules query specs p ≡ (query p || spec_matches specs p)
  unfolding union_best
  union_best-matched query [] p = ground arith
  union_best-matched query (spec ∷ specs) p =
      ground (arith, union_best-matched (union query (best_query spec)) specs p)

  empty-matched :
      (specs : List String) (p : Package) → is_empty specs ≡ true → spec_matches specs p ≡ false
  empty-matched [] p e = refl
  empty-matched (spec ∷ specs) p e = ground (arith, e)

  repo_query-matched :
      (r : Repo) (specs : List String) (p : Package)
      → repo_query sack best_query with_modules r specs p
        ≡ (spec_matches specs p && (p.reponame == r.id))
  repo_query-matched r specs p = rw (union_best-matched no_package specs p) refl

  -- The repositories that are not disabled and that the package is of match it by their own specs.
  abbrev pub repo_matches : (Repo → List String) → Conf → List Repo → Package → Bool
  repo_matches specs conf repos p =
      any
        (λ r.
          not (mem r.id conf.disable_excludes) && (p.reponame == r.id) && spec_matches (specs r) p)
        repos

  -- Is the package matched by the global specs, or by those of its repository?
  abbrev pub is_matched :
      (Conf → List String)
      → (Repo → List String)
      → Conf
      → List Repo
      → (only_main : Bool) → Package
      → Bool
  is_matched main_specs specs conf repos only_main p =
      not (mem "all" conf.disable_excludes && with_modules)
      && ((not (mem "main" conf.disable_excludes) && spec_matches (main_specs conf) p)
          || (not only_main && repo_matches specs conf repos p))

  module _ (p : Package) (found : (q : Query) → any q sack ≡ false → q p ≡ false) where
    main_excludes-excludes :
        (conf : Conf)
        → any (excludes p) (main_excludes sack best_query with_modules conf)
          ≡ (not (mem "main" conf.disable_excludes) && spec_matches conf.excludepkgs p)
    unfolding main_excludes
    main_excludes-excludes conf =
        let q = union_best sack best_query with_modules no_package conf.excludepkgs in
        ground (arith, union_best-matched no_package conf.excludepkgs p, found q)

    repo_excludes-excludes :
        (conf : Conf) (repos : List Repo)
        → any (excludes p) (repo_excludes sack best_query with_modules conf.disable_excludes repos)
          ≡ repo_matches (λ r. r.excludepkgs) conf repos p
    unfolding repo_excludes
    repo_excludes-excludes conf [] = refl
    repo_excludes-excludes conf (r ∷ repos) =
        let q = repo_query sack best_query with_modules r r.excludepkgs in
        ground
          (arith, repo_query-matched r r.excludepkgs p, found q, repo_excludes-excludes conf repos)

  module _ (p : Package) where
    main_includes-includes :
        (conf : Conf)
        → any (includes p) (main_includes sack best_query with_modules conf)
          ≡ (not (mem "main" conf.disable_excludes) && spec_matches conf.includepkgs p)
    unfolding main_includes
    main_includes-includes conf =
        ground (
          arith,
          union_best-matched no_package conf.includepkgs p,
          empty-matched conf.includepkgs p,
        )

    repo_includes-includes :
        (conf : Conf) (repos : List Repo)
        → any (includes p) (repo_includes sack best_query with_modules conf.disable_excludes repos)
          ≡ repo_matches (λ r. r.includepkgs) conf repos p
    unfolding repo_includes
    repo_includes-includes conf [] = refl
    repo_includes-includes conf (r ∷ repos) = ground (
      arith,
      repo_query-matched r r.includepkgs p,
      empty-matched r.includepkgs p,
      repo_includes-includes conf repos,
    )

    -- The calls for excludes include nothing, and the other way round.
    main_includes-excludes :
        (conf : Conf) → any (excludes p) (main_includes sack best_query with_modules conf) ≡ false
    unfolding main_includes
    main_includes-excludes conf = ground arith

    main_excludes-includes :
        (conf : Conf) → any (includes p) (main_excludes sack best_query with_modules conf) ≡ false
    unfolding main_excludes
    main_excludes-includes conf = ground arith

    repo_includes-excludes :
        (disabled : List String) (repos : List Repo)
        → any (excludes p) (repo_includes sack best_query with_modules disabled repos) ≡ false
    unfolding repo_includes
    repo_includes-excludes disabled [] = refl
    repo_includes-excludes disabled (r ∷ repos) =
        ground (arith, repo_includes-excludes disabled repos)

    repo_excludes-includes :
        (disabled : List String) (repos : List Repo)
        → any (includes p) (repo_excludes sack best_query with_modules disabled repos) ≡ false
    unfolding repo_excludes
    repo_excludes-includes disabled [] = refl
    repo_excludes-includes disabled (r ∷ repos) =
        ground (arith, repo_excludes-includes disabled repos)

  setup-excludes :
      (p : Package)
      → ((q : Query) → any q sack ≡ false → q p ≡ false)
      → (conf : Conf) (repos : List Repo) (only_main : Bool)
      → any (excludes p) (setup_excludes_includes sack best_query with_modules conf repos only_main)
        ≡ is_matched (λ c. c.excludepkgs) (λ r. r.excludepkgs) conf repos only_main p
  unfolding setup_excludes_includes
  setup-excludes p found conf repos only_main =
      let b = best_query in
      let d = conf.disable_excludes in
      let parts =
        any-five (excludes p) (main_includes sack b with_modules conf)
          (main_excludes sack b with_modules conf)
          (if only_main then [] else repo_includes sack b with_modules d repos)
          (if only_main then [] else repo_excludes sack b with_modules d repos)
          (if not only_main && with_modules then modular_excludes ∷ [] else []) in
      ground (
        arith,
        parts,
        main_includes-excludes p conf,
        main_excludes-excludes p found conf,
        repo_includes-excludes p d repos,
        repo_excludes-excludes p found conf repos,
      )

  setup-includes :
      (p : Package) (conf : Conf) (repos : List Repo) (only_main : Bool)
      → any (includes p) (setup_excludes_includes sack best_query with_modules conf repos only_main)
        ≡ is_matched (λ c. c.includepkgs) (λ r. r.includepkgs) conf repos only_main p
  unfolding setup_excludes_includes
  setup-includes p conf repos only_main =
      let b = best_query in
      let d = conf.disable_excludes in
      let parts =
        any-five (includes p) (main_includes sack b with_modules conf)
          (main_excludes sack b with_modules conf)
          (if only_main then [] else repo_includes sack b with_modules d repos)
          (if only_main then [] else repo_excludes sack b with_modules d repos)
          (if not only_main && with_modules then modular_excludes ∷ [] else []) in
      ground (
        arith,
        parts,
        main_includes-includes p conf,
        main_excludes-includes p conf,
        repo_includes-includes p conf repos,
        repo_excludes-includes p d repos,
      )

  -- A package of the sack is excluded exactly where the global specs match it and `main` is not
  -- disabled, or where the specs of an enabled repository that it is of match it, the repository is
  -- not disabled and not only the global specs are asked for; and never where all are disabled and
  -- modules are built in. The same holds of the includes with their specs.
  pub setup_excludes_includes-matched :
      (conf : Conf) (repos : List Repo) (only_main : Bool)
      → let calls = setup_excludes_includes sack best_query with_modules conf repos only_main in
        All
          (λ p.
            (any (excludes p) calls
              ≡ is_matched (λ c. c.excludepkgs) (λ r. r.excludepkgs) conf repos only_main p)
            × (any (includes p) calls
                ≡ is_matched (λ c. c.includepkgs) (λ r. r.includepkgs) conf repos only_main p))
          sack
  setup_excludes_includes-matched conf repos only_main =
      All-imp sack
        (λ p found.
          (setup-excludes p found conf repos only_main, setup-includes p conf repos only_main))
        (All-found sack sack (λ q e. e))
