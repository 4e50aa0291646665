-- ===== src/Replay/Tests.antt =====
-- A stored transaction of one package, replayed with another one pulled in.
use dnf.Base.{
  String, ℕ, ◌-◌, ◌&&◌, true, false, Option, ltb, if◌then◌else◌, none, some, List, [], ◌∷◌, map,
  ◌≡◌, refl, String_eq,
}
use dnf.Base.Dict.{lookup}
use dnf.Transaction.{Reason, install, upgraded, reason_change, user, dependency}
use dnf.Replay.{Tsi, Replay, is_extra, replayed_reason, check_item, check_loop, post_transaction}
use dnf.Replay.Stored
use dnf.Replay.Stored.{
  get, put, put_some, serialize_loop, serialize_transaction, ℤ, pos, incompatible_major,
  unpacking_failed, invalid_minor, check_version, check_value, verify_toplevel_json, load_arrays,
  after_verify, loaded, load_from_data,
}
use dnf.Replay.Stored.Read.{read_rpm, read_all, read_comps}
use dnf.Replay.Stored.Kept.{rpms_of, groups_of, envs_of, load_from_data-serialize_transaction}
use dnf.Replay.Groups.{groups_section, envs_section}
use dnf.Texts.Wrap.{split}

program : Unit {0}
unfolding get put put_some serialize_loop serialize_transaction split check_version check_value
    verify_toplevel_json load_arrays after_verify load_from_data read_rpm is_extra replayed_reason
    check_item check_loop post_transaction lookup
program = tt

abbrev replay : Replay
replay = record {
  nevra_cache = "tool-1" ∷ [];
  nevra_reason_cache = ("tool-1", dependency) ∷ [];
  ignore_installed = true;
  ignore_extras = false;
  reason_greater = λ a b. false;
}

abbrev transaction : List Tsi
transaction =
    record { nevra = some "tool-1"; action = install; reason = user }
    ∷ record { nevra = some "library-1"; action = install; reason = dependency }
    ∷ record { nevra = some "old-1"; action = upgraded; reason = user }
    ∷ record { nevra = none; action = reason_change; reason = user }
    ∷ []

post_transaction-errors :
    ((post_transaction replay transaction).errors ≡ "library-1" ∷ [])
    × (map (λ i. i.reason) (post_transaction replay transaction).items
        ≡ dependency ∷ dependency ∷ user ∷ user ∷ [])
unfolding program
post_transaction-errors = (refl, refl)

abbrev reason_to_string : Reason → String
reason_to_string reason = elim reason [ user ↦ "user" | dependency ↦ "dependency" | _ ↦ "other" ]

abbrev type_to_string : ℕ → String
type_to_string kind = "mandatory"

abbrev history : List Stored.Tsi
history =
    Stored.rpm "Install" "tool-1" user "updates"
    ∷ Stored.comps_group "Install" "tools"
        (record { name = "tool"; installed = true; package_type = 1 } ∷ []) 1
    ∷ Stored.unlisted
    ∷ Stored.rpm "Removed" "old-1" dependency "@System"
    ∷ []

-- Enough of Python's `int` for a version.
abbrev int : List ℕ → Option ℤ
int digits = elim digits [
  | [] ↦ none
  | d ∷ ds ↦ elim ds [ [] ↦ if ltb 47 d && ltb d 58 then some (pos (d - 48)) else none | _ ↦ none ]
]

abbrev data_of_history : Stored.Fields
data_of_history = serialize_transaction reason_to_string type_to_string (some history)

serialize_transaction-history :
    elim (load_from_data int data_of_history) [
      | loaded rpms groups environments ↦ read_all read_rpm rpms
      | _ ↦ none
    ]
    ≡ some (rpms_of reason_to_string type_to_string history)
unfolding program
serialize_transaction-history = refl

-- Another major version, a version of one number, and one that is no number.
check_version-refused :
    (check_version int "1.0" ≡ incompatible_major)
    × (check_version int "0" ≡ unpacking_failed)
    × (check_version int "0.x" ≡ invalid_minor)
unfolding program
check_version-refused = (refl, refl, refl)

load_from_data-serialize_transaction_example :
    (rpms groups environments : List Stored.Value) × (load_from_data int
        (serialize_transaction reason_to_string type_to_string (some history))
      ≡ loaded rpms groups environments)
    × (read_all read_rpm rpms ≡ some (rpms_of reason_to_string type_to_string history))
    × (read_all (read_comps groups_section) groups
        ≡ some (groups_of reason_to_string type_to_string history))
    × (read_all (read_comps (envs_section 2 4)) environments
        ≡ some (envs_of reason_to_string type_to_string history))
load_from_data-serialize_transaction_example =
    load_from_data-serialize_transaction reason_to_string type_to_string int 2 4 history refl
