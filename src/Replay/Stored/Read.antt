-- ===== src/Replay/Stored/Read.antt =====
-- What `run` of dnf/transaction_sr.py reads of the values of the stored arrays.
use dnf.Base.{String, Option, none, some, List, [], ◌∷◌}
use dnf.Replay.Packages.{RpmObject}
use dnf.Replay.Groups
use dnf.Replay.Groups.{Json, MemberObject, CompsObject, Section}
use dnf.Replay.Stored.{Value, text, boolean, array, object, from_items, get}

-- A key of an object, whose value is a text; none where the value is of another type.
abbrev pub text_of : Option Value → Option (Option String)
text_of none = some none
text_of (some (text t)) = some (some t)
text_of _ = none

abbrev rpm_object :
    Option (Option String)
    → Option (Option String)
    → Option (Option String)
    → Option (Option String)
    → Option RpmObject
rpm_object (some action) (some nevra) (some repo_id) (some reason) =
    some (record { action = action; nevra = nevra; repo_id = repo_id; reason = reason })
rpm_object _ _ _ _ = none

-- What `_replay_pkg_action` reads of an object; none where a value is not of the type it needs.
unfoldable pub read_rpm : Value → Option RpmObject
unfolding get
read_rpm (object fs) =
    rpm_object (text_of (get "action" fs)) (text_of (get "nevra" fs)) (text_of (get "repo_id" fs))
      (text_of (get "reason" fs))
read_rpm _ = none

abbrev json_of : Option Value → Option Json
json_of none = none
json_of (some (text t)) = some (Groups.text t)
json_of (some (boolean b)) = some (Groups.boolean b)
json_of (some _) = some Groups.other

-- What is read of a package of a group, or of a group of an environment.
unfoldable pub read_member : Section → Value → Option MemberObject
unfolding get
read_member c (object fs) = some (record {
  name = json_of (get c.name_key fs);
  is_in = json_of (get "installed" fs);
  kind = json_of (get c.type_key fs);
})
read_member c _ = none

abbrev cons_read {ℓ} : {A : Type ℓ} → Option A → Option (List A) → Option (List A)
cons_read (some x) (some xs) = some (x ∷ xs)
cons_read _ _ = none

abbrev pub read_all {ℓ} : {A : Type ℓ} → (Value → Option A) → List Value → Option (List A)
read_all read [] = some []
read_all read (v ∷ vs) = cons_read (read v) (read_all read vs)

abbrev comps_object :
    Option (Option String)
    → Option (Option String)
    → Option (Option String)
    → Option (Option (List MemberObject))
    → Option CompsObject
comps_object (some action) (some id) (some package_types) (some members) =
    some (record { action = action; id = id; package_types = package_types; members = members })
comps_object _ _ _ _ = none

abbrev some_list : Option (List MemberObject) → Option (Option (List MemberObject))
some_list none = none
some_list (some members) = some (some members)

unfoldable pub read_members : Section → Option Value → Option (Option (List MemberObject))
unfolding read_member
read_members c none = some none
read_members c (some (array vs)) = some_list (read_all (read_member c) (from_items vs))
read_members c _ = none

-- What `run` reads of a group or an environment.
unfoldable pub read_comps : Section → Value → Option CompsObject
unfolding get read_members
read_comps c (object fs) =
    comps_object (text_of (get "action" fs)) (text_of (get "id" fs))
      (text_of (get "package_types" fs)) (read_members c (get c.members_key fs))
read_comps c _ = none
