-- ===== src/Transaction/Links.antt =====
-- The operations of `RPMTransaction`: the links of replaced items, and the install set.
use dnf.Base.{
  ℕ, zero, suc, String, Bool, true, false, Option, none, some, List, [], ◌∷◌, ◌++◌, length, ◌≡◌,
  refl, arith, append_assoc, if◌then◌else◌, ap, sym, ◌∙◌, append-nil, subst,
}
use dnf.Transaction.{
  Action, install, downgraded, reinstalled, upgraded, obsoleted, Reason, Package, Item, Items,
  is_forward, new, add_obsoleted, replace, add_install, install_set, or_user,
}

-- Is the item at a position one that brings a package?
unfoldable pub forward_at : ℕ → Items → Bool
forward_at n [] = false
forward_at zero (i ∷ items) = is_forward i.action
forward_at (suc n) (i ∷ items) = forward_at n items

abbrev AllForward : List ℕ → Items → Type 0
AllForward [] items = Unit
AllForward (n ∷ ns) items = (forward_at n items ≡ true) × AllForward ns items

-- The actions of packages that another one takes the place of.
abbrev is_replaced : Action → Bool
is_replaced downgraded = true
is_replaced upgraded = true
is_replaced reinstalled = true
is_replaced obsoleted = true
is_replaced _ = false

abbrev is_nil : List ℕ → Bool
is_nil [] = true
is_nil (n ∷ ns) = false

-- The links of an item: to earlier items that bring packages, and at least one where it is replaced.
abbrev pub LinksTo : Items → Item → Type 0
LinksTo before item =
    AllForward item.replaced_by before
    × ((is_replaced item.action ≡ true) → is_nil item.replaced_by ≡ false)

unfoldable pub LinksFrom : Items → Items → Type 0
LinksFrom before [] = Unit
LinksFrom before (item ∷ items) = LinksTo before item × LinksFrom (before ++ item ∷ []) items

unfoldable pub IsLinked : Items → Type 0
unfolding LinksFrom
IsLinked items = LinksFrom [] items

forward_at-append :
    (n : ℕ) (items more : Items) → forward_at n items ≡ true → forward_at n (items ++ more) ≡ true
unfolding forward_at
forward_at-append n [] more h = ground arith
forward_at-append zero (i ∷ items) more h = h
forward_at-append (suc n) (i ∷ items) more h = forward_at-append n items more h

forward_at-length :
    (items : Items) (i : Item) → forward_at (length items) (items ++ i ∷ []) ≡ is_forward i.action
unfolding forward_at
forward_at-length [] i = refl
forward_at-length (j ∷ items) i = forward_at-length items i

LinksFrom-append :
    (before items : Items) (i : Item)
    → LinksFrom before items
    → LinksTo (before ++ items) i
    → LinksFrom before (items ++ i ∷ [])
unfolding LinksFrom
LinksFrom-append before [] i h l = (subst (λ b. LinksTo b i) (append-nil before) l, tt)
LinksFrom-append before (j ∷ items) i h l = (
  h.0,
  LinksFrom-append (before ++ j ∷ []) items i h.1
      (subst (λ b. LinksTo b i) (sym (append_assoc before (j ∷ []) items)) l),
)

pub IsLinked-append :
    (items : Items) (i : Item) → IsLinked items → LinksTo items i → IsLinked (items ++ i ∷ [])
unfolding IsLinked
IsLinked-append items i h l = LinksFrom-append [] items i h l

pub install_set-append :
    (items : Items) (i : Item)
    → install_set (items ++ i ∷ [])
      ≡ install_set items ++ (if is_forward i.action then i.pkg ∷ [] else [])
unfolding install_set
install_set-append [] i = ground arith
install_set-append (j ∷ items) i = ground (arith, install_set-append items i)

module _ (history_reason : String → String → Reason) where
  pub IsLinked-new :
      (p : Package) (action : Action) (reason : Option Reason) (links : List ℕ) (items : Items)
      → IsLinked items
      → AllForward links items
      → ((is_replaced action ≡ true) → is_nil links ≡ false)
      → IsLinked (new history_reason p action reason links items)
  unfolding new
  IsLinked-new p action reason links items h l r = IsLinked-append items _ h (l, r)

  pub install_set-new :
      (p : Package) (action : Action) (reason : Option Reason) (links : List ℕ) (items : Items)
      → install_set (new history_reason p action reason links items)
        ≡ install_set items ++ (if is_forward action then p ∷ [] else [])
  unfolding new
  install_set-new p action reason links items = install_set-append items _

  pub IsLinked-add_obsoleted :
      (ps : List Package) (n : ℕ) (items : Items)
      → IsLinked items
      → forward_at n items ≡ true
      → IsLinked (add_obsoleted history_reason ps n items)
  unfolding add_obsoleted new
  IsLinked-add_obsoleted [] n items h f = h
  IsLinked-add_obsoleted (p ∷ ps) n items h f =
      IsLinked-add_obsoleted ps n _
        (IsLinked-new p obsoleted none (n ∷ []) items h (f, tt) (λ e. refl))
        (forward_at-append n items _ f)

  pub install_set-add_obsoleted :
      (ps : List Package) (n : ℕ) (items : Items)
      → install_set (add_obsoleted history_reason ps n items) ≡ install_set items
  unfolding add_obsoleted
  install_set-add_obsoleted [] n items = refl
  install_set-add_obsoleted (p ∷ ps) n items =
      install_set-add_obsoleted ps n _
      ∙ install_set-new p obsoleted none (n ∷ []) items
      ∙ append-nil (install_set items)

  pub IsLinked-add_install :
      (p : Package) (ps : List Package) (reason : Option Reason) (items : Items)
      → IsLinked items
      → IsLinked (add_install history_reason p ps reason items)
  unfolding add_install new
  IsLinked-add_install p ps reason items h =
      IsLinked-add_obsoleted ps (length items) _
        (IsLinked-append items _ h (tt, λ e. ground (arith, e))) (forward_at-length items _)

  pub install_set-add_install :
      (p : Package) (ps : List Package) (reason : Option Reason) (items : Items)
      → install_set (add_install history_reason p ps reason items) ≡ install_set items ++ p ∷ []
  unfolding add_install
  install_set-add_install p ps reason items =
      install_set-add_obsoleted ps (length items) _
      ∙ install_set-new p install (some (or_user history_reason reason)) [] items

  pub IsLinked-replace :
      (forward backward : Action) (p old : Package) (ps : List Package) (items : Items)
      → is_forward forward ≡ true
      → is_replaced forward ≡ false
      → IsLinked items
      → IsLinked (replace history_reason forward backward p old ps items)
  unfolding replace new
  IsLinked-replace forward backward p old ps items hf hr h =
      IsLinked-add_obsoleted ps (length items) _
        (IsLinked-new old backward none (length items ∷ []) _
          (IsLinked-append items _ h (tt, λ e. ground (arith, e, hr)))
          (forward_at-length items _ ∙ hf, tt) (λ e. refl))
        (forward_at-append (length items) _ _ (forward_at-length items _ ∙ hf))

  pub install_set-replace :
      (forward backward : Action) (p old : Package) (ps : List Package) (items : Items)
      → is_forward forward ≡ true
      → is_forward backward ≡ false
      → install_set (replace history_reason forward backward p old ps items)
        ≡ install_set items ++ p ∷ []
  unfolding replace
  install_set-replace forward backward p old ps items hf hb =
      install_set-add_obsoleted ps (length items) _
      ∙ install_set-new old backward none (length items ∷ []) _
      ∙ ap
          (λ b.
            install_set (new history_reason p forward none [] items)
            ++ (if b then old ∷ [] else []))
          hb
      ∙ append-nil _
      ∙ install_set-new p forward none [] items
      ∙ ap (λ b. install_set items ++ (if b then p ∷ [] else [])) hf
