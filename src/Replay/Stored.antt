-- ===== src/Replay/Stored.antt =====
-- `serialize_transaction` and `_load_from_data` of dnf/transaction_sr.py, over JSON values.
pub mod Read
pub mod Kept
use dnf.Base.{
  ℕ, String, Bool, Option, none, some, List, [], ◌∷◌, ◌++◌, map, if◌then◌else◌, ◌==◌, ℕ_eq,
  String_eq,
}
use dnf.Base.Text.{codes}
use dnf.Texts.Wrap.{split}
use dnf.Transaction.{Reason}

-- The items of a transaction of the history, with what is read of them.
pub record GroupPackage : Type 0 where
  pub name : String
  pub installed : Bool
  pub package_type : ℕ

pub record EnvGroup : Type 0 where
  pub id : String
  pub installed : Bool
  pub group_type : ℕ

pub data Tsi : Type 0 where
  rpm : (action_name nevra : String) (reason : Reason) (from_repo : String) → Tsi
  comps_group : (action_name id : String) (packages : List GroupPackage) (package_types : ℕ) → Tsi
  comps_env : (action_name id : String) (groups : List EnvGroup) (package_types : ℕ) → Tsi
  unlisted : Tsi

-- A JSON value; numbers and null are not told apart.
mutual
  pub data Value : Type 0 where
    text : String → Value
    boolean : Bool → Value
    other : Value
    array : Items → Value
    object : Fields → Value

  pub data Items : Type 0 where
    nil : Items
    cons : Value → Items → Items

  pub data Fields : Type 0 where
    end : Fields
    field : (key : String) → Value → Fields → Fields

abbrev pub to_items : List Value → Items
to_items [] = nil
to_items (v ∷ vs) = cons v (to_items vs)

abbrev pub from_items : Items → List Value
from_items nil = []
from_items (cons v vs) = v ∷ from_items vs

-- `data.get(key)`
unfoldable pub get : String → Fields → Option Value
get key end = none
get key (field k v data_) = let rest = get key data_ in if key == k then some v else rest

-- `data[key] = value`
unfoldable pub put : String → Value → Fields → Fields
put key value end = field key value end
put key value (field k v data_) =
    let rest = put key value data_ in if key == k then field k value data_ else field k v rest

-- `if values: data[key] = values`
unfoldable pub put_some : String → List Value → Fields → Fields
unfolding put
put_some key [] data_ = data_
put_some key (v ∷ vs) data_ = put key (array (to_items (v ∷ vs))) data_

-- `data`, with `VERSION`
abbrev pub version_only : Fields
version_only = field "version" (text "0.0") end

-- libdnf's names of reasons and of package types.
module _ (reason_to_string : Reason → String) (type_to_string : ℕ → String) where
  abbrev pub rpm_data : String → String → Reason → String → Value
  rpm_data action_name nevra reason from_repo = object (
      field "action" (text action_name) (
        field "nevra" (text nevra)
          (field "reason" (text (reason_to_string reason)) (field "repo_id" (text from_repo) end))))

  abbrev pub package_data : GroupPackage → Value
  package_data pkg = object (
      field "name" (text pkg.name) (
        field "installed" (boolean pkg.installed)
          (field "package_type" (text (type_to_string pkg.package_type)) end)))

  abbrev pub group_data : String → String → List GroupPackage → ℕ → Value
  group_data action_name id packages package_types = object (
      field "action" (text action_name) (
        field "id" (text id) (
          field "packages" (array (to_items (map package_data packages)))
            (field "package_types" (text (type_to_string package_types)) end))))

  abbrev pub env_group_data : EnvGroup → Value
  env_group_data grp = object (
      field "id" (text grp.id) (
        field "installed" (boolean grp.installed)
          (field "group_type" (text (type_to_string grp.group_type)) end)))

  abbrev pub env_data : String → String → List EnvGroup → ℕ → Value
  env_data action_name id groups package_types = object (
      field "action" (text action_name) (
        field "id" (text id) (
          field "groups" (array (to_items (map env_group_data groups)))
            (field "package_types" (text (type_to_string package_types)) end))))

  unfoldable pub serialize_loop :
      List Tsi → List Value → List Value → List Value → List Value × List Value × List Value
  serialize_loop [] rpms groups environments = (rpms, groups, environments)
  serialize_loop (rpm a n r f ∷ transaction) rpms groups environments =
      serialize_loop transaction (rpms ++ rpm_data a n r f ∷ []) groups environments
  serialize_loop (comps_group a i p t ∷ transaction) rpms groups environments =
      serialize_loop transaction rpms (groups ++ group_data a i p t ∷ []) environments
  serialize_loop (comps_env a i g t ∷ transaction) rpms groups environments =
      serialize_loop transaction rpms groups (environments ++ env_data a i g t ∷ [])
  serialize_loop (unlisted ∷ transaction) rpms groups environments =
      serialize_loop transaction rpms groups environments

  -- `serialize_transaction`; the transaction may be None.
  unfoldable pub serialize_transaction : Option (List Tsi) → Fields
  unfolding serialize_loop put_some
  serialize_transaction none = version_only
  serialize_transaction (some transaction) =
      let (rpms, groups, environments) = serialize_loop transaction [] [] [] in
      put_some "environments" environments
        (put_some "groups" groups (put_some "rpms" rpms version_only))

-- Python's integers.
pub data ℤ : Type 0 where
  pos negsuc : ℕ → ℤ

-- How the check of the version ends: it returns, TransactionReplayError or TransactionError is
-- raised, or ValueError, where the version has not two parts.
pub data Version : Type 0 where
  accepted unpacking_failed not_a_string : Version
  missing_version invalid_major invalid_minor incompatible_major : Version

-- `major != VERSION_MAJOR`
abbrev check_major : ℤ → Version
check_major (pos n) = if n == 0 then accepted else incompatible_major
check_major (negsuc n) = incompatible_major

-- `int`: Python's, of a text; none is ValueError.
module _ (int : List ℕ → Option ℤ) where
  abbrev pub check_parts : List (List ℕ) → Version
  check_parts (major ∷ minor ∷ []) = elim (int major) [
    | none ↦ invalid_major
    | some n ↦ elim (int minor) [ none ↦ invalid_minor | some m ↦ check_major n ]
  ]
  check_parts _ = unpacking_failed

  -- `_check_version`
  unfoldable pub check_version : String → Version
  unfolding split
  check_version version = check_parts (split 46 (codes version))

  unfoldable pub check_value : Option Value → Version
  unfolding check_version
  check_value none = missing_version
  check_value (some (text version)) = check_version version
  check_value _ = not_a_string

  -- `_verify_toplevel_json`
  unfoldable pub verify_toplevel_json : Fields → Version
  unfolding get check_value
  verify_toplevel_json replay_data = check_value (get "version" replay_data)

-- `data.get(key, [])` and the check of its type; none is TransactionError.
abbrev array_of : Option Value → Option (List Value)
array_of none = some []
array_of (some (array vs)) = some (from_items vs)
array_of _ = none

-- What is loaded; or how the check of the version failed, or which key has no array.
pub data Loaded : Type 0 where
  loaded : (rpms groups environments : List Value) → Loaded
  bad_version : Version → Loaded
  bad_array : (id : String) → Loaded

unfoldable pub load_arrays : Fields → Loaded
unfolding get
load_arrays replay_data = elim (array_of (get "rpms" replay_data)) [
  | none ↦ bad_array "rpms"
  | some rpms ↦ elim (array_of (get "groups" replay_data)) [
    | none ↦ bad_array "groups"
    | some groups ↦ elim (array_of (get "environments" replay_data)) [
      | none ↦ bad_array "environments"
      | some environments ↦ loaded rpms groups environments
    ]
  ]
]

-- The part after `_verify_toplevel_json`, where that returns.
unfoldable pub after_verify : Version → Fields → Loaded
unfolding load_arrays
after_verify accepted replay_data = load_arrays replay_data
after_verify v replay_data = bad_version v

-- `_load_from_data`
unfoldable pub load_from_data : (int : List ℕ → Option ℤ) → Fields → Loaded
unfolding verify_toplevel_json after_verify
load_from_data int replay_data = after_verify (verify_toplevel_json int replay_data) replay_data
