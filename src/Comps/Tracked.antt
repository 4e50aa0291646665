-- ===== src/Comps/Tracked.antt =====
-- When `GroupPersistor.is_removable_pkg` gives an answer and not KeyError.
use dnf.Base.{
  String, Bool, true, false, not, ◌&&◌, some, List, [], ◌∷◌, filter, any, mem, ◌==◌, String_eq, ◌≡◌,
  refl, arith, Bool-cases, inl, inr,
}
use dnf.Comps.{
  SwdbPackage, lists, drop_group, drop_removed, add_installed, is_empty, is_removable_pkg,
}
use dnf.Comps.Removable.{Groups, drop_group-mem}

-- At most one installed package of a list has the name.
unfoldable pub AtMostOnce : String → List SwdbPackage → Type 0
AtMostOnce pkg_name [] = Unit
AtMostOnce pkg_name (pkg ∷ packages) =
    ((((pkg.name == pkg_name) && pkg.installed) ≡ true)
      → any (λ p. (p.name == pkg_name) && p.installed) packages ≡ false)
    × AtMostOnce pkg_name packages

abbrev pub absent : String → Groups → Bool
absent key [] = true
absent key ((group_id, group) ∷ groups) = not (group_id == key) && absent key groups

-- The removed groups, each under its own key, list the package at most once as installed, and those that
-- do are among the groups that the database has for it.
unfoldable pub IsTracked : String → List String → Groups → Type 0
unfolding AtMostOnce
IsTracked pkg_name package_groups [] = Unit
IsTracked pkg_name package_groups ((group_id, group) ∷ removed) =
    AtMostOnce pkg_name group.packages
    × ((lists pkg_name group ≡ true) → mem group_id package_groups ≡ true)
    × (absent group_id removed ≡ true)
    × IsTracked pkg_name package_groups removed

drop_group-unlisted :
    (pkg_name group_id : String) (packages : List SwdbPackage) (gs : List String)
    → any (λ p. (p.name == pkg_name) && p.installed) packages ≡ false
    → drop_group pkg_name group_id packages gs ≡ some gs
unfolding drop_group
drop_group-unlisted pkg_name group_id [] gs h = refl
drop_group-unlisted pkg_name group_id (pkg ∷ packages) gs h =
    ground (arith, h, drop_group-unlisted pkg_name group_id packages gs (ground (arith, h)))

drop_group-some :
    (pkg_name group_id : String) (packages : List SwdbPackage) (gs : List String)
    → AtMostOnce pkg_name packages
    → ((any (λ p. (p.name == pkg_name) && p.installed) packages ≡ true) → mem group_id gs ≡ true)
    → (left : List String) × (drop_group pkg_name group_id packages gs ≡ some left)
unfolding drop_group AtMostOnce
drop_group-some pkg_name group_id [] gs o h = (gs, refl)
drop_group-some pkg_name group_id (pkg ∷ packages) gs o h =
    elim (Bool-cases ((pkg.name == pkg_name) && pkg.installed)) [
      | inl t ↦ (
        filter (λ g. not (g == group_id)) gs,
        rw (t, h (ground (arith, t)), drop_group)
            (drop_group-unlisted pkg_name group_id packages (filter (λ g. not (g == group_id)) gs)
              (o.0 t)),
      )
      | inr t ↦
          let ih = drop_group-some pkg_name group_id packages gs o.1 (λ k. h (ground (arith, k))) in
          (ih.0, rw (t, drop_group) ih.1)
    ]

IsTracked-left :
    (pkg_name key : String) (x : Bool) (gs left : List String) (removed : Groups)
    → ((g : String) → mem g left ≡ (mem g gs && not ((g == key) && x)))
    → absent key removed ≡ true
    → IsTracked pkg_name gs removed
    → IsTracked pkg_name left removed
unfolding IsTracked
IsTracked-left pkg_name key x gs left [] m a h = tt
IsTracked-left pkg_name key x gs left ((group_id, group) ∷ removed) m a h = (
  h.0,
  λ l. ground (arith, m group_id, h.1 l, a),
  h.2,
  IsTracked-left pkg_name key x gs left removed m (ground (arith, a)) h.3,
)

drop_removed-some :
    (pkg_name : String) (removed : Groups) (gs : List String)
    → IsTracked pkg_name gs removed
    → (left : List String) × (drop_removed pkg_name removed gs ≡ some left)
unfolding drop_removed IsTracked
drop_removed-some pkg_name [] gs h = (gs, refl)
drop_removed-some pkg_name ((group_id, group) ∷ removed) gs h =
    let (mid, s) = drop_group-some pkg_name group_id group.packages gs h.0 h.1 in
    let ih = drop_removed-some pkg_name removed mid (
      IsTracked-left pkg_name group_id (lists pkg_name group) gs mid removed
        (λ g. drop_group-mem pkg_name group_id g group.packages gs mid s) h.2 h.3) in
    (ih.0, rw (s, drop_removed) ih.1)

-- Where the removed groups are tracked by the database, there is an answer and no KeyError.
pub is_removable_pkg-some :
    (has_group_reason : Bool) (package_groups : List String) (removed installed : Groups)
    (pkg_name : String)
    → IsTracked pkg_name package_groups removed
    → (b : Bool) × (is_removable_pkg has_group_reason package_groups removed installed pkg_name
        ≡ some b)
unfolding is_removable_pkg
is_removable_pkg-some false package_groups removed installed pkg_name h = (false, refl)
is_removable_pkg-some true package_groups removed installed pkg_name h =
    let (left, s) = drop_removed-some pkg_name removed package_groups h in
    (is_empty (add_installed pkg_name installed left), rw (s, is_removable_pkg) refl)
