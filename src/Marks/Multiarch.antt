-- ===== src/Marks/Multiarch.antt =====
-- `Base._query_matches_installed` and `Base._install_multiarch` of dnf/base.py.
use dnf.Base.{
  String, ℕ, Bool, not, ◌&&◌, Option, none, some, List, [], ◌∷◌, ◌++◌, map, any, length, ◌==◌, ℕ_eq,
  String_eq, if◌then◌else◌,
}
use dnf.Marks.{
  Package, Query, union, installed, available, Ask, goal_install, already_installed, by_packages,
  Setting,
}

abbrev pub NaDict : Type 0
NaDict = List ((String × String) × List Package)

abbrev pub same_na : String × String → String × String → Bool
same_na (name, arch) (n, a) = (name == n) && (arch == a)

-- `d.get(na)`
abbrev pub get_na : String × String → NaDict → Option (List Package)
get_na na [] = none
get_na na ((key, packages) ∷ d) = if same_na na key then some packages else get_na na d

abbrev first : List Package → List Package
first [] = []
first (p ∷ ps) = p ∷ []

-- What the loop adds to the installed packages and to the available ones.
abbrev pub add_matches :
    Option (List Package)
    → List Package
    → List Package × List (List Package)
    → List Package × List (List Package)
add_matches none packages (inst_l, avail_l) = (inst_l, packages ∷ avail_l)
add_matches (some inst) packages (inst_l, avail_l) = (first inst ++ inst_l, avail_l)

-- The loop over the names and architectures; a list of the dictionary is never empty.
unfoldable pub match_loop : NaDict → NaDict → List Package × List (List Package)
match_loop inst_per_arch [] = ([], [])
match_loop inst_per_arch ((na, packages) ∷ avail) =
    add_matches (get_na na inst_per_arch) packages (match_loop inst_per_arch avail)

module _ (w : Setting) where
  unfoldable pub query_matches_installed : Query → List Package × List (List Package)
  unfolding match_loop
  query_matches_installed q = match_loop (w.na_dict (installed q)) (w.na_dict (available q))

  -- `query().filterm(pkg=packages)`
  abbrev pub of_packages : List Package → Query
  of_packages packages p = any (λ o. o.id == p.id) packages

  abbrev pub with_obsoletes : Query → Query
  with_obsoletes q = if w.obsoletes then union q (w.obsoleting (w.latest q)) else q

  -- `_install_multiarch`: what is asked for; `len(available)` is returned.
  unfoldable pub install_multiarch :
      Query → (reponame : Option String) → (strict : Bool) → List Ask × ℕ
  unfolding query_matches_installed
  install_multiarch query reponame strict =
      let (already_inst, available) = query_matches_installed query in
      (
        map already_installed already_inst
            ++ map
                (λ packages.
                  goal_install (by_packages (with_obsoletes (of_packages packages)) reponame)
                    (not strict))
                available,
        length available,
      )
