-- ===== src/Comps/Removable.antt =====
-- `GroupPersistor.is_removable_pkg` of dnf/db/group.py.
use dnf.Base.{
  String, Bool, true, false, not, ◌&&◌, ◌||◌, some, List, [], ◌∷◌, ◌++◌, filter, any, mem, ◌==◌,
  String_eq, ◌≡◌, ◌↔◌, refl, arith, if◌then◌else◌, Bool-cases, Option-cases, inl, inr, ◌∙◌, sym,
}
use dnf.Base.Dict.{add}
use dnf.Comps.{
  SwdbPackage, SwdbGroup, lists, drop_group, drop_removed, add_installed, is_empty,
  is_removable_pkg,
}

abbrev pub Groups : Type 0
Groups = List (String × SwdbGroup)

-- Does a group of these, with the given id, list the package as installed?
abbrev pub listed : String → String → Groups → Bool
listed pkg_name g groups = any (λ (group_id, group). (group_id == g) && lists pkg_name group) groups

mem-filter :
    (g group_id : String) (gs : List String)
    → mem g (filter (λ x. not (x == group_id)) gs) ≡ (mem g gs && not (g == group_id))
mem-filter g group_id [] = ground arith
mem-filter g group_id (x ∷ gs) = ground (
  arith,
  mem-filter g group_id gs,
  String_eq.beq_iff g x,
  String_eq.beq_iff g group_id,
  String_eq.beq_iff x group_id,
)

pub drop_group-mem :
    (pkg_name group_id g : String) (packages : List SwdbPackage) (gs left : List String)
    → drop_group pkg_name group_id packages gs ≡ some left
    → mem g left ≡ (
        mem g gs
        && not ((g == group_id) && any (λ pkg. (pkg.name == pkg_name) && pkg.installed) packages))
unfolding drop_group
drop_group-mem pkg_name group_id g [] gs left e = ground (arith, e)
drop_group-mem pkg_name group_id g (pkg ∷ packages) gs left e =
    elim (Bool-cases ((pkg.name == pkg_name) && pkg.installed)) [
      | inl h ↦ elim (Bool-cases (mem group_id gs)) [
        | inl m ↦ ground (
          arith,
          h,
          mem-filter g group_id gs,
          drop_group-mem pkg_name group_id g packages (filter (λ x. not (x == group_id)) gs) left
              (rw (h, m, drop_group) at e),
        )
        | inr m ↦ ground (arith, rw (h, m, drop_group) at e)
      ]
      | inr h ↦
          ground (
            arith,
            h,
            drop_group-mem pkg_name group_id g packages gs left (rw (h, drop_group) at e),
          )
    ]

drop_removed-mem :
    (pkg_name g : String) (removed : Groups) (gs left : List String)
    → drop_removed pkg_name removed gs ≡ some left
    → mem g left ≡ (mem g gs && not (listed pkg_name g removed))
unfolding drop_removed
drop_removed-mem pkg_name g [] gs left e = ground (arith, e)
drop_removed-mem pkg_name g ((group_id, group) ∷ removed) gs left e =
    elim (Option-cases (drop_group pkg_name group_id group.packages gs)) [
      | inl n ↦ ground (arith, e, n)
      | inr (mid, s) ↦ ground (
        arith,
        String_eq.beq_iff g group_id,
        String_eq.beq_iff group_id g,
        drop_group-mem pkg_name group_id g group.packages gs mid s,
        drop_removed-mem pkg_name g removed mid left (rw (s, drop_removed) at e),
      )
    ]

mem-append : (g : String) (xs ys : List String) → mem g (xs ++ ys) ≡ (mem g xs || mem g ys)
mem-append g [] ys = refl
mem-append g (x ∷ xs) ys = ground (arith, mem-append g xs ys)

add-mem : (g x : String) (gs : List String) → mem g (add x gs) ≡ (mem g gs || (x == g))
unfolding add
add-mem g x gs = elim (Bool-cases (mem x gs)) [
  | inl m ↦ elim (Bool-cases (x == g)) [
    | inl t ↦ rw (← (String_eq.beq_iff x g).0 t, m) ground arith
    | inr t ↦ ground (arith, m, t)
  ]
  | inr m ↦
      ground (arith, m, mem-append g gs (x ∷ []), String_eq.beq_iff g x, String_eq.beq_iff x g)
]

add_installed-mem :
    (pkg_name g : String) (installed : Groups) (gs : List String)
    → mem g (add_installed pkg_name installed gs) ≡ (mem g gs || listed pkg_name g installed)
unfolding add_installed
add_installed-mem pkg_name g [] gs = ground arith
add_installed-mem pkg_name g ((group_id, group) ∷ installed) gs =
    add_installed-mem pkg_name g installed (if lists pkg_name group then add group_id gs else gs)
    ∙ ground (arith, add-mem g group_id gs)

is_empty-mem : (gs : List String) → (is_empty gs ≡ true) ↔ ((g : String) → mem g gs ≡ false)
is_empty-mem [] = (λ e g. refl, λ h. refl)
is_empty-mem (x ∷ gs) = (λ e g. ground (arith, e), λ h. ground (arith, h x, String_eq.beq_iff x x))

-- Does a group hold the package? The database has it for the package and it is not removed with the
-- package installed, or it is installed with it.
abbrev pub holds : String → List String → Groups → Groups → String → Bool
holds pkg_name package_groups removed installed g =
    (mem g package_groups && not (listed pkg_name g removed)) || listed pkg_name g installed

held :
    (pkg_name : String) (package_groups left : List String) (removed installed : Groups)
    → drop_removed pkg_name removed package_groups ≡ some left
    → (g : String)
    → mem g (add_installed pkg_name installed left)
      ≡ holds pkg_name package_groups removed installed g
held pkg_name package_groups left removed installed s g = ground (
  arith,
  add_installed-mem pkg_name g installed left,
  drop_removed-mem pkg_name g removed package_groups left s,
)

is_removable_some : {a b : Bool} → some a ≡ some b → a ≡ b
is_removable_some e = ground (arith, e)

-- Where the answer is no KeyError, a package can be removed exactly when its reason is GROUP and no
-- group holds it.
pub is_removable_pkg-holds :
    (has_group_reason : Bool) (package_groups : List String) (removed installed : Groups)
    (pkg_name : String) (b : Bool)
    → is_removable_pkg has_group_reason package_groups removed installed pkg_name ≡ some b
    → (b ≡ true) ↔ (
        (has_group_reason ≡ true)
        × ((g : String) → holds pkg_name package_groups removed installed g ≡ false))
unfolding is_removable_pkg
is_removable_pkg-holds false package_groups removed installed pkg_name b e =
    (λ t. ground (arith, e, t), λ h. ground (arith, h.0))
is_removable_pkg-holds true package_groups removed installed pkg_name b e =
    elim (Option-cases (drop_removed pkg_name removed package_groups)) [
      | inl n ↦ ground (arith, e, n)
      | inr (left, s) ↦
          let known = λ (g : String). held pkg_name package_groups left removed installed s g in
          let b_is = is_removable_some (rw (s, is_removable_pkg) at e) in
          let empty_iff = is_empty-mem (add_installed pkg_name installed left) in
          (
            λ t. (refl, λ g. sym (known g) ∙ empty_iff.0 (b_is ∙ t) g),
            λ h. sym b_is ∙ empty_iff.1 (λ g. known g ∙ h.1 g),
          )
    ]
