-- ===== src/Replay/Run/Tests.antt =====
-- A file that installs one package, erases another one and installs a group.
use dnf.Base.{
  String, Bool, true, false, not, ◌&&◌, none, some, List, [], ◌∷◌, map, ◌==◌, String_eq,
  if◌then◌else◌, ◌≡◌, refl, All,
}
use dnf.Transaction.{user, dependency, install}
use dnf.Replay.{Tsi, is_extra, check_item, check_loop, post_transaction, replayed_reason}
use dnf.Replay.Check.{when}
use dnf.Replay.Packages.{
  RpmObject, Request, Package, Nevra, Setting, goal_install, goal_erase, erase_all, note_nevra,
  install_action, reinstall_action, erase_action, do_action, replay_parsed, replay_nevra,
  replay_pkg_action, run_rpms, limit_repo,
}
use dnf.Replay.Groups.{
  Known, text, boolean, check_member, create_members, create_and_record, record_known, comps_action,
  replay_comps, run_comps,
}
use dnf.Replay.Run.{Arrays, CompsKnown, run, to_replay}
use dnf.Replay.Run.Cache.{unlisted, stored_reason, restored, post_transaction-run}
use dnf.Replay.Run.Named.{Covered, some_named, run-Covered}

program : Unit {0}
unfolding limit_repo erase_all note_nevra install_action reinstall_action erase_action do_action
    replay_parsed replay_nevra replay_pkg_action run_rpms check_member create_members
    create_and_record record_known comps_action replay_comps run_comps run is_extra replayed_reason
    check_item check_loop post_transaction
program = tt

abbrev a_package : String → String → Bool → Package
a_package name reponame is_installed = record {
  name = name;
  epoch = 0;
  version = "1";
  release = "1";
  arch = "noarch";
  reponame = reponame;
  is_installed = is_installed;
  is_installonly = false;
}

abbrev tool : Package
tool = a_package "tool" "base" false

abbrev updated_tool : Package
updated_tool = a_package "tool" "updates" false

abbrev old : Package
old = a_package "old" "@System" true

abbrev parse : String → List Nevra
parse nevra =
    if nevra == "tool-1-1.noarch"
    then record { name = "tool"; epoch = none; version = "1"; release = "1"; arch = "noarch" } ∷ []
    else if nevra == "old-1-1.noarch"
    then record { name = "old"; epoch = some 0; version = "1"; release = "1"; arch = "noarch" } ∷ []
    else []

abbrev setting : Setting
setting = record {
  ignore_installed = false;
  skip_unavailable = false;
  strict = true;
  sack = tool ∷ updated_tool ∷ old ∷ [];
  nevra_possibilities = parse;
  string_to_reason = λ reason. if reason == "user" then some user else none;
  same_version = λ a b. a == b;
}

abbrev object : String → String → String → RpmObject
object action nevra repo_id = record {
  action = some action;
  nevra = some nevra;
  repo_id = some repo_id;
  reason = some "user";
}

abbrev arrays : Arrays
arrays = record {
  rpms =
      object "Install" "tool-1-1.noarch" "updates"
      ∷ object "Removed" "old-1-1.noarch" "@System"
      ∷ [];
  groups =
      record {
        action = some "Install";
        id = some "tools";
        package_types = some "mandatory";
        members = some (
            record {
              name = some (text "tool");
              is_in = some (boolean true);
              kind = some (text "mandatory");
            }
            ∷ []);
      }
      ∷ [];
  environments = [];
}

abbrev known : Known
known = record {
  in_comps = λ id. id == "tools";
  in_history = λ id. false;
  string_to_type = λ kind. if kind == "mandatory" then some 2 else none;
}

abbrev comps_known : CompsKnown
comps_known = record { known_groups = known; known_envs = known; mandatory = 2; optional = 4 }

abbrev transaction : List Tsi
transaction =
    record { nevra = some "tool-1-1.noarch"; action = install; reason = user }
    ∷ record { nevra = some "library-1-1.noarch"; action = install; reason = dependency }
    ∷ []

abbrev is_goal : Request → Bool
is_goal (goal_install (p ∷ []) is_optional) = p.reponame == "updates" && not is_optional
is_goal (goal_erase p) = p.name == "old"
is_goal _ = false

run-goal :
    (map is_goal (run setting comps_known arrays).0.requests ≡ true ∷ true ∷ false ∷ [])
    × ((run setting comps_known arrays).1 ≡ [])
    × ((run setting comps_known arrays).0.nevra_cache ≡ "tool-1-1.noarch" ∷ "old-1-1.noarch" ∷ [])
unfolding program
run-goal = (refl, refl, refl)

no_error : (run setting comps_known arrays).1 ≡ []
unfolding program
no_error = refl

post_transaction-library : unlisted setting arrays transaction ≡ "library-1-1.noarch" ∷ []
post_transaction-library = refl

stored_reason-tool :
    (stored_reason setting "tool-1-1.noarch" arrays.rpms none ≡ some user)
    × (stored_reason setting "library-1-1.noarch" arrays.rpms none ≡ none)
stored_reason-tool = (refl, refl)

post_transaction-run_example :
    let r = to_replay setting false (λ a b. false) (run setting comps_known arrays).0 in
    post_transaction r transaction ≡ record {
      errors = when r true (unlisted setting arrays transaction);
      warnings = when r false (unlisted setting arrays transaction);
      items = map (restored setting arrays (λ a b. false)) transaction;
    }
post_transaction-run_example =
    post_transaction-run setting comps_known arrays refl no_error false (λ a b. false) transaction

run-Covered_example :
    All
      (Covered setting (some_named setting arrays.rpms))
      (run setting comps_known arrays).0.requests
run-Covered_example = run-Covered setting comps_known arrays
