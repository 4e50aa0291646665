-- ===== src/Util/Tests.antt =====
-- The functions of dnf/util.py on small inputs.
use dnf.Base.{
  filter, map, if◌then◌else◌, ℕ, String, ◌≡◌, refl, Bool, false, ◌||◌, any, Option, none, some,
  List, [], ◌∷◌, ◌++◌, ltb, All, mem, String_eq,
}
use dnf.Base.Text.{ends_with}
use dnf.Transaction.{install, upgraded, upgrade, group}
use dnf.Util.Groups.{
  splitter, group_by_filter, insert_if, next_subsequence, split_loop, split_by, concat, IsGroup,
  split_by-IsGroup,
}
use dnf.Util.MakeLists.{
  field_of, append_to, make_lists_loop, make_lists, installed_group, belongs, make_lists-filter,
}
use dnf.Util.MakeLists
use dnf.Util.Specs.{
  add_spec, specs_loop, parse_specs, parse_specs-unique, unique, is_filename, is_group, is_package,
  tail,
}
use dnf.Util.Sync.{
  unknown, done, Tsi, Element, candidate, set_state, step, elements_loop, sync_rpm_trans_with_swdb,
  is_unknown,
}
use dnf.Util.Sync.Flags.{
  IsFound, with_states, last_outcome, any_failed, is_missing, sync_rpm_trans_with_swdb-Follows,
}

program : Unit {0}
unfolding splitter group_by_filter insert_if next_subsequence split_loop split_by field_of append_to
    make_lists_loop make_lists add_spec specs_loop parse_specs candidate set_state step
    elements_loop sync_rpm_trans_with_swdb
program = tt

abbrev large : ℕ → Bool
large n = ltb 4 n

abbrev numbers : List ℕ
numbers = 1 ∷ 5 ∷ 2 ∷ 6 ∷ 7 ∷ []

split_by-numbers :
    (split_by large numbers ≡ some ((1 ∷ []) ∷ (5 ∷ 2 ∷ []) ∷ (6 ∷ []) ∷ (7 ∷ []) ∷ []))
    × (group_by_filter large numbers ≡ (5 ∷ 6 ∷ 7 ∷ [], 1 ∷ 2 ∷ []))
unfolding program
split_by-numbers = (refl, refl)

split_by-IsGroup_example :
    (head : List ℕ) × (others : List (List ℕ)) × (split_by large numbers ≡ some (head ∷ others))
    × (head ++ concat others ≡ numbers)
    × All (λ y. large y ≡ false) head
    × All (IsGroup large) others
split_by-IsGroup_example = split_by-IsGroup large numbers

abbrev reported : List MakeLists.Tsi
reported =
    record { is_error = false; action = install; reason = group }
    ∷ record { is_error = false; action = upgraded; reason = group }
    ∷ []

make_lists-filter_example :
    make_lists reported installed_group ≡ filter (belongs installed_group) reported
make_lists-filter_example = make_lists-filter installed_group reported

abbrev scheme : String → String
scheme value = if value_is_url value then "https" else ""
  where
    value_is_url : String → Bool
    value_is_url value = mem value ("https://host/a" ∷ [])

abbrev specs : List String
specs = "tool" ∷ "@group" ∷ "a.rpm" ∷ "tool" ∷ "https://host/a" ∷ []

parse_specs-specs : parse_specs scheme specs ≡ record {
  filenames = "a.rpm" ∷ "https://host/a" ∷ [];
  grp_specs = "group" ∷ [];
  pkg_specs = "tool" ∷ [];
}
unfolding program ends_with
parse_specs-specs = refl

parse_specs-unique_example : parse_specs scheme specs ≡ record {
  filenames = filter (is_filename scheme) (unique scheme specs);
  grp_specs = map tail (filter (is_group scheme) (unique scheme specs));
  pkg_specs = filter (is_package scheme) (unique scheme specs);
}
parse_specs-unique_example = parse_specs-unique scheme specs

abbrev items : List Tsi
items =
    record { nevra = "tool-2"; action = upgrade; state = unknown }
    ∷ record { nevra = "tool-1"; action = upgraded; state = unknown }
    ∷ []

abbrev elements : List Element
elements =
    record { nevra = "tool-2"; key = some 0; failed = false }
    ∷ record { nevra = "tool-1"; key = none; failed = false }
    ∷ []

sync_rpm_trans_with_swdb-items : sync_rpm_trans_with_swdb elements items ≡ record {
  el_not_found = false;
  has_error = false;
  items =
      record { nevra = "tool-2"; action = upgrade; state = done }
      ∷ record { nevra = "tool-1"; action = upgraded; state = done }
      ∷ [];
}
unfolding program
sync_rpm_trans_with_swdb-items = refl

sync_rpm_trans_with_swdb-Follows_example :
    let s = sync_rpm_trans_with_swdb elements items in
    (found : List (Option ℕ)) × IsFound elements found items s.items
    × (s.items ≡ with_states (last_outcome elements found) items)
    × (s.has_error ≡ any_failed elements found)
    × (s.el_not_found ≡ (any is_missing found || any is_unknown s.items))
sync_rpm_trans_with_swdb-Follows_example = sync_rpm_trans_with_swdb-Follows elements items
