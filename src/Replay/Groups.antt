-- ===== src/Replay/Groups.antt =====
-- The groups and environments of `TransactionReplay` of dnf/transaction_sr.py.
use dnf.Base.{
  ℕ, String, Bool, true, ◌||◌, Option, none, some, List, [], ◌∷◌, ◌++◌, mem, ◌==◌, ℕ_eq, String_eq,
  if◌then◌else◌,
}
use dnf.Replay.Packages.{
  Message, missing_key, bad_action, bad_member, not_in_comps, not_in_history, HistoryAction,
  install, upgrade, downgrade, remove, Member, Request, record_group, record_env, Setting, State,
  End, raised, returned, raise_or_warn, collect, ask,
}

-- A value of the stored JSON, as far as its type is asked for.
pub data Json : Type 0 where
  text : String → Json
  boolean : Bool → Json
  other : Json

-- An object of a group's packages or an environment's groups: what it is called, whether it is
-- installed, and its type; `none` for a key that is not there.
pub record MemberObject : Type 0 where
  pub name : Option Json
  pub is_in : Option Json
  pub kind : Option Json

-- An object of the keys groups and environments.
pub record CompsObject : Type 0 where
  pub action : Option String
  pub id : Option String
  pub package_types : Option String
  pub members : Option (List MemberObject)

-- What is read of the comps data and the history, and libdnf's parser of package types.
pub record Known : Type 0 where
  pub in_comps : String → Bool
  pub in_history : String → Bool
  pub string_to_type : String → Option ℕ

-- The names that differ between groups and environments: of the keys of a member, and which types a
-- member may have.
pub record Section : Type 0 where
  pub name_key : String
  pub type_key : String
  pub members_key : String
  pub allowed_type : ℕ → Bool
  pub record_as : HistoryAction → String → ℕ → List Member → Request

abbrev pub groups_section : Section
groups_section = record {
  name_key = "name";
  type_key = "package_type";
  members_key = "packages";
  allowed_type = λ kind. true;
  record_as = record_group;
}

-- `mandatory` and `optional`: the two types that a group of an environment may have.
abbrev pub envs_section : ℕ → ℕ → Section
envs_section mandatory optional = record {
  name_key = "id";
  type_key = "group_type";
  members_key = "groups";
  allowed_type = λ kind. (kind == mandatory) || (kind == optional);
  record_as = record_env;
}

-- A member, or the error of the first check that fails.
pub data MemberCheck : Type 0 where
  bad : Message → MemberCheck
  good : Member → MemberCheck

module _ (c : Section) (k : Known) where
  abbrev check_kind : String → Bool → Option Json → MemberCheck
  check_kind name is_in none = bad (missing_key c.type_key)
  check_kind name is_in (some (boolean b)) = bad (bad_member c.type_key)
  check_kind name is_in (some other) = bad (bad_member c.type_key)
  check_kind name is_in (some (text kind)) = elim (k.string_to_type kind) [
    | none ↦ bad (bad_member c.type_key)
    | some n ↦
        if c.allowed_type n
        then good (record { name = name; is_in = is_in; kind = n })
        else bad (bad_member c.type_key)
  ]

  abbrev check_installed : String → MemberObject → Option Json → MemberCheck
  check_installed name o none = bad (missing_key "installed")
  check_installed name o (some (text t)) = bad (bad_member "installed")
  check_installed name o (some other) = bad (bad_member "installed")
  check_installed name o (some (boolean b)) = check_kind name b o.kind

  abbrev check_name : MemberObject → Option Json → MemberCheck
  check_name o none = bad (missing_key c.name_key)
  check_name o (some (boolean b)) = bad (bad_member c.name_key)
  check_name o (some other) = bad (bad_member c.name_key)
  check_name o (some (text name)) = check_installed name o o.is_in

  -- The body of the loop over the members.
  unfoldable pub check_member : MemberObject → MemberCheck
  check_member o = check_name o o.name

  abbrev on_good : MemberCheck → (Member → List Member × End) → List Member × End
  on_good (bad msg) rest = ([], raised msg)
  on_good (good m) rest = rest m

  -- The loop; the members that were added before an error are dropped with the object.
  unfoldable pub create_members : List MemberObject → List Member → List Member × End
  unfolding check_member
  create_members [] members = (members, returned)
  create_members (o ∷ objects) members =
      on_good (check_member o) (λ m. create_members objects (members ++ m ∷ []))

  -- `_create_swdb_group` or `_create_swdb_environment`, and what is done with the result.
  unfoldable pub create_and_record :
      Setting → HistoryAction → String → ℕ → List MemberObject → State → State × End
  unfolding create_members
  create_and_record w action id types objects s =
      if k.in_comps id
      then elim (create_members objects []).1 [
        | raised msg ↦ (s, raised msg)
        | returned ↦ (ask (c.record_as action id types (create_members objects []).0) s, returned)
      ]
      else raise_or_warn w.skip_unavailable (not_in_comps id) s

  -- `_swdb_group_upgrade`, `_swdb_group_downgrade` and `_swdb_group_remove`, and those on environments.
  unfoldable pub record_known :
      Setting → HistoryAction → String → ℕ → List MemberObject → State → State × End
  unfolding create_and_record
  record_known w action id types objects s =
      if k.in_history id
      then create_and_record w action id types objects s
      else raise_or_warn w.ignore_installed (not_in_history id) s

  -- What a group's action asks for; none for an action that is not one.
  unfoldable pub comps_action : String → Option HistoryAction
  comps_action action =
      if action == "Install"
      then some install
      else if action == "Removed"
      then some remove
      else if mem action ("Upgrade" ∷ "Upgraded" ∷ [])
      then some upgrade
      else if mem action ("Downgrade" ∷ "Downgraded" ∷ [])
      then some downgrade
      else none

  abbrev pub replay_members :
      Setting → HistoryAction → String → ℕ → Option (List MemberObject) → State → State × End
  replay_members w action id types none s = (s, raised (missing_key c.members_key))
  replay_members w install id types (some objects) s =
      create_and_record w install id types objects s
  replay_members w action id types (some objects) s = record_known w action id types objects s

  -- The body of the loop over the groups, or over the environments.
  unfoldable pub replay_comps : Setting → CompsObject → State → State × End
  unfolding create_and_record record_known comps_action
  replay_comps w o s = elim o.action [
    | none ↦ (s, raised (missing_key "action"))
    | some action ↦ elim o.id [
      | none ↦ (s, raised (missing_key "id"))
      | some id ↦ elim o.package_types [
        | none ↦ (s, raised (missing_key "package_types"))
        | some type_names ↦ elim (k.string_to_type type_names) [
          | none ↦ (s, raised (bad_member "package_types"))
          | some types ↦ elim (comps_action action) [
            | none ↦ (s, raised (bad_action action id))
            | some a ↦ replay_members w a id types o.members s
          ]
        ]
      ]
    ]
  ]

  unfoldable pub run_comps :
      Setting → List CompsObject → State × List Message → State × List Message
  unfolding replay_comps
  run_comps w [] r = r
  run_comps w (o ∷ objects) (s, errors) = run_comps w objects (collect (replay_comps w o s) errors)
