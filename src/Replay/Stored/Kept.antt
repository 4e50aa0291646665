-- ===== src/Replay/Stored/Kept.antt =====
-- That `_load_from_data` of dnf/transaction_sr.py keeps what `serialize_transaction` was given.
use dnf.Base.{
  ℕ, String, Bool, Option, some, List, [], ◌∷◌, ◌++◌, map, ◌≡◌, refl, append_assoc, append-nil, ◌∙◌,
  ap, String_eq,
}
use dnf.Transaction.{Reason}
use dnf.Texts.Wrap.{split}
use dnf.Replay.Packages.{RpmObject}
use dnf.Replay.Groups.{Json, MemberObject, CompsObject, Section, groups_section, envs_section}
use dnf.Replay.Stored.{
  GroupPackage, EnvGroup, Tsi, rpm, comps_group, comps_env, unlisted, Value, text, Fields, to_items,
  from_items, get, put, rpm_data, package_data, group_data, env_group_data, env_data,
  serialize_loop, put_some, version_only, serialize_transaction, ℤ, pos, check_version, check_value,
  verify_toplevel_json, load_arrays, after_verify, accepted, check_parts, loaded, load_from_data,
}
use dnf.Replay.Groups
use dnf.Replay.Stored.Read.{read_rpm, read_member, read_members, read_all, read_comps}

from_items-to_items : (vs : List Value) → from_items (to_items vs) ≡ vs
from_items-to_items [] = refl
from_items-to_items (v ∷ vs) = ap (λ us. v ∷ us) (from_items-to_items vs)

module _ (reason_to_string : Reason → String) (type_to_string : ℕ → String) where
  -- The packages, the groups and the environments of a transaction, as the objects of `run`.
  abbrev pub rpms_of : List Tsi → List RpmObject
  rpms_of [] = []
  rpms_of (rpm a n r f ∷ transaction) =
      record {
        action = some a;
        nevra = some n;
        repo_id = some f;
        reason = some (reason_to_string r);
      }
      ∷ rpms_of transaction
  rpms_of (_ ∷ transaction) = rpms_of transaction

  abbrev pub member_of : String → Bool → ℕ → MemberObject
  member_of name installed kind = record {
    name = some (Groups.text name);
    is_in = some (Groups.boolean installed);
    kind = some (Groups.text (type_to_string kind));
  }

  abbrev pub comps_of : String → String → ℕ → List MemberObject → CompsObject
  comps_of action id types members = record {
    action = some action;
    id = some id;
    package_types = some (type_to_string types);
    members = some members;
  }

  abbrev pub groups_of : List Tsi → List CompsObject
  groups_of [] = []
  groups_of (comps_group a i p t ∷ transaction) =
      comps_of a i t (map (λ q. member_of q.name q.installed q.package_type) p)
      ∷ groups_of transaction
  groups_of (_ ∷ transaction) = groups_of transaction

  abbrev pub envs_of : List Tsi → List CompsObject
  envs_of [] = []
  envs_of (comps_env a i g t ∷ transaction) =
      comps_of a i t (map (λ q. member_of q.id q.installed q.group_type) g) ∷ envs_of transaction
  envs_of (_ ∷ transaction) = envs_of transaction

  -- The values that are stored of them.
  abbrev rpm_values : List Tsi → List Value
  rpm_values [] = []
  rpm_values (rpm a n r f ∷ transaction) =
      rpm_data reason_to_string type_to_string a n r f ∷ rpm_values transaction
  rpm_values (_ ∷ transaction) = rpm_values transaction

  abbrev group_values : List Tsi → List Value
  group_values [] = []
  group_values (comps_group a i p t ∷ transaction) =
      group_data reason_to_string type_to_string a i p t ∷ group_values transaction
  group_values (_ ∷ transaction) = group_values transaction

  abbrev env_values : List Tsi → List Value
  env_values [] = []
  env_values (comps_env a i g t ∷ transaction) =
      env_data reason_to_string type_to_string a i g t ∷ env_values transaction
  env_values (_ ∷ transaction) = env_values transaction

  read_rpms :
      (transaction : List Tsi)
      → read_all read_rpm (rpm_values transaction) ≡ some (rpms_of transaction)
  unfolding read_rpm get
  read_rpms [] = refl
  read_rpms (rpm a n r f ∷ transaction) = rw (read_rpms transaction) refl
  read_rpms (comps_group a i p t ∷ transaction) = read_rpms transaction
  read_rpms (comps_env a i g t ∷ transaction) = read_rpms transaction
  read_rpms (unlisted ∷ transaction) = read_rpms transaction

  read_packages :
      (packages : List GroupPackage)
      → read_all
          (read_member groups_section)
          (map (package_data reason_to_string type_to_string) packages)
        ≡ some (map (λ q. member_of q.name q.installed q.package_type) packages)
  unfolding read_member get
  read_packages [] = refl
  read_packages (p ∷ packages) = rw (read_packages packages) refl

  read_groups :
      (transaction : List Tsi)
      → read_all (read_comps groups_section) (group_values transaction)
        ≡ some (groups_of transaction)
  unfolding read_comps read_members get
  read_groups [] = refl
  read_groups (rpm a n r f ∷ transaction) = read_groups transaction
  read_groups (comps_group a i p t ∷ transaction) =
      rw
        (
          from_items-to_items (map (package_data reason_to_string type_to_string) p),
          read_packages p,
          read_groups transaction,
        )
        refl
  read_groups (comps_env a i g t ∷ transaction) = read_groups transaction
  read_groups (unlisted ∷ transaction) = read_groups transaction

  read_env_groups :
      (mandatory optional : ℕ) (groups : List EnvGroup)
      → read_all
          (read_member (envs_section mandatory optional))
          (map (env_group_data reason_to_string type_to_string) groups)
        ≡ some (map (λ q. member_of q.id q.installed q.group_type) groups)
  unfolding read_member get
  read_env_groups mandatory optional [] = refl
  read_env_groups mandatory optional (g ∷ groups) =
      rw (read_env_groups mandatory optional groups) refl

  read_envs :
      (mandatory optional : ℕ) (transaction : List Tsi)
      → read_all (read_comps (envs_section mandatory optional)) (env_values transaction)
        ≡ some (envs_of transaction)
  unfolding read_comps read_members get
  read_envs mandatory optional [] = refl
  read_envs mandatory optional (rpm a n r f ∷ transaction) =
      read_envs mandatory optional transaction
  read_envs mandatory optional (comps_group a i p t ∷ transaction) =
      read_envs mandatory optional transaction
  read_envs mandatory optional (comps_env a i g t ∷ transaction) =
      rw
        (
          from_items-to_items (map (env_group_data reason_to_string type_to_string) g),
          read_env_groups mandatory optional g,
          read_envs mandatory optional transaction,
        )
        refl
  read_envs mandatory optional (unlisted ∷ transaction) = read_envs mandatory optional transaction

  abbrev append_one : (xs ys : List Value) (v : Value) → (xs ++ v ∷ []) ++ ys ≡ xs ++ v ∷ ys
  append_one xs ys v = append_assoc xs (v ∷ []) ys

  serialize_loop-lists :
      (transaction : List Tsi) (r g e : List Value)
      → serialize_loop reason_to_string type_to_string transaction r g e
        ≡ (r ++ rpm_values transaction, g ++ group_values transaction, e ++ env_values transaction)
  unfolding serialize_loop
  serialize_loop-lists [] r g e = rw (append-nil r, append-nil g, append-nil e) refl
  serialize_loop-lists (rpm a n s f ∷ transaction) r g e =
      serialize_loop-lists transaction (r ++ rpm_data reason_to_string type_to_string a n s f ∷ [])
        g e
      ∙ rw
          (append_one r (rpm_values transaction) (rpm_data reason_to_string type_to_string a n s f))
          refl
  serialize_loop-lists (comps_group a i p t ∷ transaction) r g e =
      serialize_loop-lists transaction r
        (g ++ group_data reason_to_string type_to_string a i p t ∷ []) e
      ∙ rw
          (append_one g (group_values transaction)
            (group_data reason_to_string type_to_string a i p t))
          refl
  serialize_loop-lists (comps_env a i h t ∷ transaction) r g e =
      serialize_loop-lists transaction r g
        (e ++ env_data reason_to_string type_to_string a i h t ∷ [])
      ∙ rw
          (append_one e (env_values transaction) (env_data reason_to_string type_to_string a i h t))
          refl
  serialize_loop-lists (unlisted ∷ transaction) r g e = serialize_loop-lists transaction r g e

-- The data of three arrays, with the keys of those that are not empty.
abbrev stored : List Value → List Value → List Value → Fields
stored rpms groups environments =
    put_some "environments" environments
      (put_some "groups" groups (put_some "rpms" rpms version_only))

parts-accepted :
    (int : List ℕ → Option ℤ)
    → int (48 ∷ []) ≡ some (pos 0)
    → check_parts int ((48 ∷ []) ∷ (48 ∷ []) ∷ []) ≡ accepted
parts-accepted int zero_text = rw (zero_text, check_parts) (rw zero_text refl)

version-accepted :
    (int : List ℕ → Option ℤ) → int (48 ∷ []) ≡ some (pos 0) → check_version int "0.0" ≡ accepted
unfolding check_version split
version-accepted int zero_text = parts-accepted int zero_text

loads :
    (int : List ℕ → Option ℤ)
    → int (48 ∷ []) ≡ some (pos 0)
    → (data_ : Fields) → get "version" data_ ≡ some (text "0.0")
    → load_from_data int data_ ≡ load_arrays data_
unfolding load_from_data verify_toplevel_json check_value after_verify
loads int zero_text data_ e =
    ap (λ v. after_verify (check_value int v) data_) e
    ∙ ap (λ v. after_verify v data_) (version-accepted int zero_text)

load_stored :
    (int : List ℕ → Option ℤ)
    → int (48 ∷ []) ≡ some (pos 0)
    → (rpms groups environments : List Value)
    → load_from_data int (stored rpms groups environments)
      ≡ loaded
          (from_items (to_items rpms))
          (from_items (to_items groups))
          (from_items (to_items environments))
unfolding load_arrays put_some put get
load_stored int zero_text [] [] [] = loads int zero_text (stored [] [] []) refl
load_stored int zero_text [] [] (e ∷ envs) = loads int zero_text (stored [] [] (e ∷ envs)) refl
load_stored int zero_text [] (g ∷ groups) [] = loads int zero_text (stored [] (g ∷ groups) []) refl
load_stored int zero_text [] (g ∷ groups) (e ∷ envs) =
    loads int zero_text (stored [] (g ∷ groups) (e ∷ envs)) refl
load_stored int zero_text (r ∷ rpms) [] [] = loads int zero_text (stored (r ∷ rpms) [] []) refl
load_stored int zero_text (r ∷ rpms) [] (e ∷ envs) =
    loads int zero_text (stored (r ∷ rpms) [] (e ∷ envs)) refl
load_stored int zero_text (r ∷ rpms) (g ∷ groups) [] =
    loads int zero_text (stored (r ∷ rpms) (g ∷ groups) []) refl
load_stored int zero_text (r ∷ rpms) (g ∷ groups) (e ∷ envs) =
    loads int zero_text (stored (r ∷ rpms) (g ∷ groups) (e ∷ envs)) refl

-- Where `int` reads the text 0 as the number, the data of a transaction are loaded: their version is
-- accepted, and `run` reads of the three arrays the packages, the groups and the environments of the
-- transaction, each in their order and with all that is stored of them, whether or not there are any.
pub load_from_data-serialize_transaction :
    (reason_to_string : Reason → String) (type_to_string : ℕ → String) (int : List ℕ → Option ℤ)
    (mandatory optional : ℕ) (transaction : List Tsi)
    → int (48 ∷ []) ≡ some (pos 0)
    → (rpms groups environments : List Value) × (load_from_data int
          (serialize_transaction reason_to_string type_to_string (some transaction))
        ≡ loaded rpms groups environments)
      × (read_all read_rpm rpms ≡ some (rpms_of reason_to_string type_to_string transaction))
      × (read_all (read_comps groups_section) groups
          ≡ some (groups_of reason_to_string type_to_string transaction))
      × (read_all (read_comps (envs_section mandatory optional)) environments
          ≡ some (envs_of reason_to_string type_to_string transaction))
unfolding serialize_transaction
load_from_data-serialize_transaction reason_to_string type_to_string int mandatory optional
      transaction zero_text =
    let rpms = rpm_values reason_to_string type_to_string transaction in
    let groups = group_values reason_to_string type_to_string transaction in
    let environments = env_values reason_to_string type_to_string transaction in
    (
      rpms,
      groups,
      environments,
      rw (serialize_loop-lists reason_to_string type_to_string transaction [] [] []) (
          load_stored int zero_text rpms groups environments
          ∙ rw
              (
                from_items-to_items rpms,
                from_items-to_items groups,
                from_items-to_items environments,
              )
              refl),
      read_rpms reason_to_string type_to_string transaction,
      read_groups reason_to_string type_to_string transaction,
      read_envs reason_to_string type_to_string mandatory optional transaction,
    )
