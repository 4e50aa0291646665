-- ===== src/Util/MakeLists.antt =====
-- `_make_lists` of dnf/util.py: the items of a transaction by what is reported of them.
use dnf.Base.{
  ℕ, ◌==◌, ℕ_eq, Bool, true, false, not, ◌&&◌, List, [], ◌∷◌, ◌++◌, filter, ◌≡◌, arith,
  append_assoc, append-nil, if◌then◌else◌, ◌∙◌,
}
use dnf.Transaction.{
  Action, downgrade, install, reinstall, remove, upgrade, Reason, group, dependency,
  weak_dependency, clean,
}

-- What is read of an item: whether its state is ERROR, its action and its reason.
pub record Tsi : Type 0 where
  pub is_error : Bool
  pub action : Action
  pub reason : Reason

-- The lists of the result.
pub data Field : Type 0 where
  downgraded erased erased_clean erased_dep installed installed_group installed_dep installed_weak :
      Field
  reinstalled upgraded failed unlisted : Field

-- The branches of the loop: to which list an item is appended, `unlisted` for none.
unfoldable pub field_of : Tsi → Field
field_of tsi = if tsi.is_error then failed else elim tsi.action [
  | downgrade ↦ downgraded
  | install ↦ elim tsi.reason [
    | group ↦ installed_group
    | dependency ↦ installed_dep
    | weak_dependency ↦ installed_weak
    | _ ↦ installed
  ]
  | reinstall ↦ reinstalled
  | remove ↦ elim tsi.reason [ clean ↦ erased_clean | dependency ↦ erased_dep | _ ↦ erased ]
  | upgrade ↦ upgraded
  | _ ↦ unlisted
]

abbrev pub code : Field → ℕ
code downgraded = 0
code erased = 1
code erased_clean = 2
code erased_dep = 3
code installed = 4
code installed_group = 5
code installed_dep = 6
code installed_weak = 7
code reinstalled = 8
code upgraded = 9
code failed = 10
code unlisted = 11

-- A result, as the list of each field.
abbrev pub Bunch : Type 0
Bunch = Field → List Tsi

-- `b.f.append(tsi)`; nothing is appended for `unlisted`.
unfoldable pub append_to : Field → Tsi → Bunch → Bunch
append_to unlisted tsi b = b
append_to f tsi b = λ g. if code g == code f then b g ++ tsi ∷ [] else b g

unfoldable pub make_lists_loop : List Tsi → Bunch → Bunch
unfolding field_of append_to
make_lists_loop [] b = b
make_lists_loop (tsi ∷ transaction) b = make_lists_loop transaction (append_to (field_of tsi) tsi b)

unfoldable pub make_lists : List Tsi → Bunch
unfolding make_lists_loop
make_lists transaction = make_lists_loop transaction (λ f. [])

abbrev pub is_downgrade : Tsi → Bool
is_downgrade tsi = not tsi.is_error && (elim tsi.action [ downgrade ↦ true | _ ↦ false ])

abbrev pub is_install : Tsi → Bool
is_install tsi = not tsi.is_error && (elim tsi.action [ install ↦ true | _ ↦ false ])

abbrev pub is_reinstall : Tsi → Bool
is_reinstall tsi = not tsi.is_error && (elim tsi.action [ reinstall ↦ true | _ ↦ false ])

abbrev pub is_remove : Tsi → Bool
is_remove tsi = not tsi.is_error && (elim tsi.action [ remove ↦ true | _ ↦ false ])

abbrev pub is_upgrade : Tsi → Bool
is_upgrade tsi = not tsi.is_error && (elim tsi.action [ upgrade ↦ true | _ ↦ false ])

abbrev pub is_group : Tsi → Bool
is_group tsi = elim tsi.reason [ group ↦ true | _ ↦ false ]

abbrev pub is_dependency : Tsi → Bool
is_dependency tsi = elim tsi.reason [ dependency ↦ true | _ ↦ false ]

abbrev pub is_weak_dependency : Tsi → Bool
is_weak_dependency tsi = elim tsi.reason [ weak_dependency ↦ true | _ ↦ false ]

abbrev pub is_clean : Tsi → Bool
is_clean tsi = elim tsi.reason [ clean ↦ true | _ ↦ false ]

-- What the name of each list says of its items.
abbrev pub belongs : Field → Tsi → Bool
belongs downgraded tsi = is_downgrade tsi
belongs erased tsi = is_remove tsi && not (is_clean tsi) && not (is_dependency tsi)
belongs erased_clean tsi = is_remove tsi && is_clean tsi
belongs erased_dep tsi = is_remove tsi && is_dependency tsi
belongs installed tsi =
    is_install tsi && not (is_group tsi) && not (is_dependency tsi) && not (is_weak_dependency tsi)
belongs installed_group tsi = is_install tsi && is_group tsi
belongs installed_dep tsi = is_install tsi && is_dependency tsi
belongs installed_weak tsi = is_install tsi && is_weak_dependency tsi
belongs reinstalled tsi = is_reinstall tsi
belongs upgraded tsi = is_upgrade tsi
belongs failed tsi = tsi.is_error
belongs unlisted tsi = false

append_to-belongs :
    (f : Field) (tsi : Tsi) (b : Bunch)
    → append_to (field_of tsi) tsi b f ≡ (if belongs f tsi then b f ++ tsi ∷ [] else b f)
unfolding append_to field_of
append_to-belongs f tsi b = ground arith

make_lists_loop-filter :
    (f : Field) (transaction : List Tsi) (b : Bunch)
    → make_lists_loop transaction b f ≡ b f ++ filter (belongs f) transaction
unfolding make_lists_loop
make_lists_loop-filter f [] b = ground (arith, append-nil (b f))
make_lists_loop-filter f (tsi ∷ transaction) b =
    make_lists_loop-filter f transaction (append_to (field_of tsi) tsi b)
    ∙ ground (
      arith,
      append_to-belongs f tsi b,
      append_assoc (b f) (tsi ∷ []) (filter (belongs f) transaction),
    )

-- Each list holds, in the order of the transaction, exactly the items that its name says: those of
-- the action, without the failed ones, and of the reason, where a list is of a reason.
pub make_lists-filter :
    (f : Field) (transaction : List Tsi) → make_lists transaction f ≡ filter (belongs f) transaction
unfolding make_lists
make_lists-filter f transaction = make_lists_loop-filter f transaction (λ g. [])
