-- ===== src/AliasFiles.antt =====
-- How dnf/cli/aliases.py loads the aliases from its files.
pub mod Precedence
mod Tests
use dnf.Base.{
  String, Bool, true, false, not, ◌&&◌, ◌||◌, Option, none, some, List, [], ◌∷◌, ◌++◌, filter, mem,
  ◌==◌, String_eq, if◌then◌else◌,
}
use dnf.Base.Dict.{Dict, insert, update}
use dnf.Base.Text.{codes, starts_with, ends_with}

-- A file as libdnf's parser has it: `enabled` of the section main, and the options of the section
-- aliases, if that is there. `config_error`: it cannot be read or parsed.
pub data ConfFile : Type 0 where
  config_error : ConfFile
  conf_file : (enabled : Option String) (section : Option (List (String × String))) → ConfFile

-- RuntimeError, or whether aliases are enabled, and the aliases.
pub data Loaded : Type 0 where
  runtime_error : Loaded
  loaded : Bool → Dict String (List String) → Loaded

-- `parse_bool`: OptionBool, with `none` for RuntimeError; `words`: str.split(); `file`: what is at a
-- path.
module _ (parse_bool : String → Option Bool) (words : String → List String)
    (file : String → ConfFile) where
  unfoldable pub enabled : Option String → Option Bool
  enabled none = some true
  enabled (some text) = parse_bool text

  -- The loop of `AliasesConfig.aliases`.
  unfoldable pub options_loop :
      List (String × String) → Dict String (List String) → Dict String (List String)
  unfolding insert
  options_loop [] result = result
  options_loop ((key, value) ∷ options) result =
      options_loop options (if value == "" then result else insert key (words value) result)

  unfoldable pub conf_aliases : Option (List (String × String)) → Dict String (List String)
  unfolding options_loop
  conf_aliases none = []
  conf_aliases (some options) = options_loop options []

  unfoldable pub disabled_by_environ : Option String → Bool
  disabled_by_environ none = false
  disabled_by_environ (some value) = elim (parse_bool value) [ none ↦ true | some b ↦ b ]

  -- The loop of `_load_aliases`.
  unfoldable pub load_aliases : List String → Dict String (List String) → Loaded
  unfolding enabled conf_aliases
  load_aliases [] aliases = loaded true aliases
  load_aliases (filename ∷ filenames) aliases = elim (file filename) [
    | config_error ↦ load_aliases filenames aliases
    | conf_file text section ↦ elim (enabled text) [
      | none ↦ runtime_error
      | some b ↦
          load_aliases filenames (if b then update aliases (conf_aliases section) else aliases)
    ]
  ]

  unfoldable pub ignore_filename : String → Bool
  ignore_filename filename =
      mem filename ("ALIASES.conf" ∷ "USER.conf" ∷ [])
      || starts_with (codes ".") (codes filename)
      || not
          (ends_with (codes ".conf") (codes filename) || ends_with (codes ".CONF") (codes filename))

  -- `entries`: the sorted names of the directory, `none` for OSError.
  unfoldable pub dropin_dir_filenames :
      (entries : Option (List String)) → (user_exists : Bool) → Option (List String)
  unfolding ignore_filename
  dropin_dir_filenames none user_exists = none
  dropin_dir_filenames (some entries) user_exists = some (
      filter (λ fn. not (ignore_filename fn)) entries
      ++ (if user_exists then "USER.conf" ∷ [] else []))

  abbrev load_default : Option (List String) → Loaded
  load_default none = loaded true []
  load_default (some filenames) = load_aliases filenames []

  -- `Aliases.__init__`; `_load_main` reads ALIASES.conf.
  unfoldable pub init :
      (environ : Option String) → (entries : Option (List String)) → (user_exists : Bool) → Loaded
  unfolding disabled_by_environ enabled load_aliases dropin_dir_filenames
  init environ entries user_exists =
      if disabled_by_environ environ then loaded false [] else elim (file "ALIASES.conf") [
        | config_error ↦ load_default (dropin_dir_filenames entries user_exists)
        | conf_file text section ↦ elim (enabled text) [
          | none ↦ runtime_error
          | some b ↦
              if b then load_default (dropin_dir_filenames entries user_exists) else loaded false []
        ]
      ]
