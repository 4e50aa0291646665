-- ===== src/AliasFiles/Tests.antt =====
-- Aliases from two files, the user's last.
use dnf.Base.{
  String, Bool, true, false, Option, none, some, List, [], ◌∷◌, ◌≡◌, refl, ◌==◌, String_eq,
  if◌then◌else◌,
}
use dnf.Base.Dict.{insert, update, lookup}
use dnf.Base.Text.{ends_with}
use dnf.AliasFiles.{
  ConfFile, config_error, conf_file, loaded, enabled, options_loop, conf_aliases,
  disabled_by_environ, load_aliases, ignore_filename, dropin_dir_filenames, init,
}
use dnf.AliasFiles.Precedence.{last_in_files, Gives, load_aliases-Gives}

program : Unit {0}
unfolding insert update lookup ends_with enabled options_loop conf_aliases disabled_by_environ
    load_aliases ignore_filename dropin_dir_filenames init
program = tt

abbrev parse_bool : String → Option Bool
parse_bool text = if text == "1" then some true else if text == "0" then some false else none

abbrev words : String → List String
words text = text ∷ []

abbrev file : String → ConfFile
file path =
    if path == "USER.conf"
    then conf_file none (some (("in", "reinstall") ∷ ("rm", "") ∷ []))
    else if path == "a.conf"
    then conf_file (some "1") (some (("in", "install") ∷ ("rm", "remove") ∷ []))
    else config_error

init-user :
    init parse_bool words file none (some ("ALIASES.conf" ∷ "a.conf" ∷ "b.txt" ∷ [])) true
    ≡ loaded true (("in", "reinstall" ∷ []) ∷ ("rm", "remove" ∷ []) ∷ [])
unfolding program
init-user = refl

load_aliases-Gives_example :
    Gives parse_bool words file "in"
      (last_in_files parse_bool words file "in" none ("a.conf" ∷ "USER.conf" ∷ []))
      (load_aliases parse_bool words file ("a.conf" ∷ "USER.conf" ∷ []) [])
unfolding lookup
load_aliases-Gives_example =
    load_aliases-Gives parse_bool words file "in" ("a.conf" ∷ "USER.conf" ∷ []) []
