-- ===== src/Marks/Specs/Reports.antt =====
-- What `install_specs` reports, and what of the failing specs is left.
use dnf.Base.{
  String, Bool, true, false, not, Option, List, [], ◌∷◌, ◌++◌, filter, ◌==◌, ℕ_eq, if◌then◌else◌,
  ◌≡◌, refl, ap, arith, ◌∙◌, Bool-cases, inl, inr,
}
use dnf.Util.Specs.{parse_specs}
use dnf.Marks.{Ask, Setting}
use dnf.Marks.Packages.{Marking, Outcome, marked, failed}
use dnf.Marks.Subjects.{install}
use dnf.Marks.Subjects.Counts.{asks_goal, goal_count, IsClean, install_op}
use dnf.Marks.Subjects.Clean.{perform-Promised}
use dnf.Marks.GroupSpecs.{State, Ended, counted, comps_failed, key_failed, error, env_group_install}
use dnf.Marks.GroupSpecs.Grows.{Grows, Grows-refl, Grows-trans, env_group_install-Grows}
use dnf.Marks.Specs.{
  Request, exclude_package_specs, install_groups, on_group, on_marking, Skipping, group_name,
  group_types, install_pkgs, install_specs,
}

abbrev is_failed : Outcome → Bool
is_failed (marked n) = false
is_failed (failed f) = true

-- What of a list is asked of the goal.
abbrev pub to_goal : List Ask → List Ask
to_goal [] = []
to_goal (a ∷ asks) = if asks_goal a == 1 then a ∷ to_goal asks else to_goal asks

to_goal-append : (xs ys : List Ask) → to_goal (xs ++ ys) ≡ to_goal xs ++ to_goal ys
to_goal-append [] ys = refl
to_goal-append (a ∷ xs) ys = elim (Bool-cases (asks_goal a == 1)) [
  | inl x ↦ rw (x, to_goal-append xs ys) refl
  | inr x ↦ rw (x, to_goal-append xs ys) refl
]

to_goal-none : (asks : List Ask) → goal_count asks ≡ 0 → to_goal asks ≡ []
to_goal-none [] e = refl
to_goal-none (a ∷ asks) e = ground (arith, to_goal-none asks, e)

-- A failed marking has asked the goal for nothing.
IsClean-to_goal : (m : Marking) → IsClean m → is_failed m.1 ≡ true → to_goal m.0 ≡ []
IsClean-to_goal (asks, marked n) h e = ground (arith, e)
IsClean-to_goal (asks, failed f) h e = to_goal-none asks h

on_marking-failed :
    (q : Request) (o : Outcome) (spec : String) (no_match : List String)
    → is_failed o ≡ true
    → on_marking q o spec no_match ≡ spec ∷ no_match
on_marking-failed q (marked n) spec no_match e = ground (arith, e)
on_marking-failed q (failed f) spec no_match e = refl

on_marking-marked :
    (q : Request) (o : Outcome) (spec : String) (no_match : List String)
    → is_failed o ≡ false
    → on_marking q o spec no_match ≡ no_match
on_marking-marked q (marked n) spec no_match e = refl
on_marking-marked q (failed f) spec no_match e = ground (arith, e)

module _ (q : Request) (w : Setting) (reponame : Option String) (strict : Bool) where
  -- Is a spec not matched?
  abbrev pub fails : String → Bool
  fails spec = is_failed (install w spec reponame strict).1

  -- What the specs ask the goal for, one after the other.
  abbrev pub asked : List String → List Ask
  asked [] = []
  asked (spec ∷ specs) = to_goal (install w spec reponame strict).0 ++ asked specs

  install_pkgs-fails :
      (specs : List String)
      → ((install_pkgs q w reponame strict specs).1 ≡ filter fails specs)
        × (to_goal (install_pkgs q w reponame strict specs).0
            ≡ asked (filter (λ spec. not (fails spec)) specs))
  unfolding install_pkgs
  install_pkgs-fails [] = (refl, refl)
  install_pkgs-fails (spec ∷ specs) =
      let rest = install_pkgs-fails specs in
      let m = install w spec reponame strict in
      let split = to_goal-append m.0 (install_pkgs q w reponame strict specs).0 in
      let clean = IsClean-to_goal m (perform-Promised w (install_op spec reponame strict)) in
      elim (Bool-cases (fails spec)) [
        | inl x ↦ (
          on_marking-failed q m.1 spec (install_pkgs q w reponame strict specs).1 x
              ∙ rw (x, rest.0) refl,
          rw (x, split, clean x) rest.1,
        )
        | inr x ↦ (
          on_marking-marked q m.1 spec (install_pkgs q w reponame strict specs).1 x
              ∙ rw (x, rest.0) refl,
          rw (x, split) (ap (λ l. to_goal m.0 ++ l) rest.1),
        )
      ]

module _ (q : Request) where
  on_group-Grows :
      (s : State) (out : State × Ended) (name : String) (skipped : List String)
      (rest : State → List String → Skipping q)
      → Grows s.comps_trans out.0.comps_trans
      → ((t : State) (l : List String) → Grows t.comps_trans (rest t l).0.comps_trans)
      → Grows s.comps_trans (on_group q out name skipped rest).0.comps_trans
  on_group-Grows s (t, counted n) name skipped rest h k =
      Grows-trans s.comps_trans t.comps_trans _ h (k t skipped)
  on_group-Grows s (t, comps_failed) name skipped rest h k =
      Grows-trans s.comps_trans t.comps_trans _ h (k t _)
  on_group-Grows s (t, error) name skipped rest h k =
      Grows-trans s.comps_trans t.comps_trans _ h (k t _)
  on_group-Grows s (t, key_failed) name skipped rest h k = h

  install_groups-Grows :
      (excluded : List String) (strict : Bool) (group_specs : List String) (s : State)
      (skipped : List String)
      → Grows s.comps_trans (install_groups q excluded strict group_specs s skipped).0.comps_trans
  unfolding install_groups
  install_groups-Grows excluded strict [] s skipped = Grows-refl s.comps_trans
  install_groups-Grows excluded strict (group_spec ∷ group_specs) s skipped =
      on_group-Grows s
        (env_group_install q.world q.search_available (group_name q group_spec ∷ [])
          (q.types_of (group_types q group_spec)) strict excluded s)
        (group_name q group_spec) skipped _
        (env_group_install-Grows q.world q.search_available (group_name q group_spec ∷ [])
          (q.types_of (group_types q group_spec)) strict excluded s)
        (λ t l. install_groups-Grows excluded strict group_specs t l)

  -- The setting in which the packages are looked for, and the package specs.
  abbrev pub setting_for : List String → Setting
  setting_for exclude = q.setting_without (
      exclude_package_specs q (q.setting_without (λ p. false)).is_glob_pattern
        (parse_specs q.scheme exclude).pkg_specs)

  abbrev pub pkg_specs_of : List String → List String
  pkg_specs_of specs = (parse_specs q.scheme specs).pkg_specs

  -- Of the package specs exactly those whose marking fails are reported, in their order. For the
  -- package specs the goal is asked for what the others ask for, one after the other, and for
  -- nothing else; and the groups that are installed besides take back nothing of the bunch and keep
  -- it disjoint, whatever fails.
  pub install_specs-reports :
      (specs exclude : List String) (reponame : Option String) (strict : Bool) (s : State)
      → let r = install_specs q specs exclude reponame strict s in
        let is_bad = fails q (setting_for exclude) reponame strict in
        (r.errors.no_match_pkg_specs ≡ filter is_bad (pkg_specs_of specs))
        × (to_goal r.asks
            ≡ asked q
                (setting_for exclude)
                reponame
                strict
                (filter (λ spec. not (is_bad spec)) (pkg_specs_of specs)))
        × Grows s.comps_trans r.state.comps_trans
  unfolding install_specs
  install_specs-reports specs exclude reponame strict s =
      let pkgs = install_pkgs-fails q (setting_for exclude) reponame strict (pkg_specs_of specs) in
      (pkgs.0, pkgs.1, install_groups-Grows _ strict _ s [])
