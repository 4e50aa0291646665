-- ===== src/Persistor.antt =====
-- dnf/persistor.py: the lists that are kept in JSON files. What json.loads gives is taken to be a
-- list of texts.
pub mod Kept
pub mod Finalize
pub mod Repos
mod Tests
use dnf.Base.{
  String, Bool, true, false, not, ◌&&◌, ◌||◌, Option, none, some, List, [], ◌∷◌, if◌then◌else◌,
  String_eq,
}
use dnf.Base.Dict.{add}

-- A file: not there, empty, not JSON, or a list.
pub data File : Type 0 where
  missing empty_file invalid : File
  json : List String → File

-- `_check_json_db`
unfoldable pub check_json_db : File → File
check_json_db missing = json []
check_json_db f = f

-- `_get_json_db`: what it returns, and the file afterwards; its default is an empty list.
unfoldable pub get_json_db : File → List String × File
get_json_db empty_file = ([], json [])
get_json_db (json content) = (content, json content)
get_json_db f = ([], f)

-- `old.update(other)` of a set
unfoldable pub update_set : List String → List String → List String
update_set old [] = old
update_set old (a ∷ other) = update_set (add a old) other

-- `set(l)`
abbrev pub to_set : List String → List String
to_set l = update_set [] l

pub record TempfilePersistor : Type 0 where
  pub tempfiles_to_add : List String
  pub is_empty : Bool

abbrev pub no_files : List String → Bool
no_files [] = true
no_files (a ∷ l) = false

abbrev pub start : TempfilePersistor
start = record { tempfiles_to_add = []; is_empty = false }

-- `empty`
unfoldable pub empty : TempfilePersistor → TempfilePersistor
empty p = record p { is_empty = true }

-- `get_saved_tempfiles`
unfoldable pub get_saved_tempfiles : File → List String × File
unfolding check_json_db get_json_db
get_saved_tempfiles f = get_json_db (check_json_db f)

-- `save`: the file that it leaves
unfoldable pub save : TempfilePersistor → File → File
unfolding check_json_db get_json_db update_set
save p f =
    if not p.is_empty && no_files p.tempfiles_to_add
    then f
    else if p.is_empty
    then json []
    else json (update_set (to_set (get_json_db (check_json_db f)).0) p.tempfiles_to_add)

-- `RepoPersistor`, and whether the calls of the system succeed: on its list, and on last_makecache.
pub record RepoPersistor : Type 0 where
  pub expired_to_add : List String
  pub reset_last_makecache : Bool

-- `get_expired_repos`; none where the system refuses.
unfoldable pub get_expired_repos : (is_readable : Bool) → File → Option (List String) × File
unfolding check_json_db get_json_db update_set
get_expired_repos is_readable f =
    if is_readable
    then (some (to_set (get_json_db (check_json_db f)).0), (get_json_db (check_json_db f)).1)
    else (none, f)

-- `save`: what it returns, if anything, and the file.
unfoldable pub save_repos :
    (is_writable is_touchable : Bool) → RepoPersistor → File → Option Bool × File
save_repos is_writable is_touchable p f =
    if not is_writable
    then (some false, f)
    else if p.reset_last_makecache
    then (some is_touchable, json p.expired_to_add)
    else (none, json p.expired_to_add)
