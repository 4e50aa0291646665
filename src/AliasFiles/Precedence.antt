-- ===== src/AliasFiles/Precedence.antt =====
-- Which file's alias is taken.
use dnf.Base.{
  String, Bool, true, false, Option, none, some, List, [], ◌∷◌, ◌≡◌, refl, ◌==◌, String_eq,
  if◌then◌else◌, ap, ◌∙◌, ◌⊎◌, inl, inr, Option-cases,
}
use dnf.Base.Dict.{Dict, lookup, update, insert, lookup-insert}
use dnf.AliasFiles.{
  ConfFile, config_error, conf_file, Loaded, runtime_error, loaded, enabled, conf_aliases,
  load_aliases,
}

-- The last value for a key, or the one there was.
abbrev pub last_value :
    String → Option (List String) → Dict String (List String) → Option (List String)
last_value key old [] = old
last_value key old ((k, v) ∷ others) = last_value key (if key == k then some v else old) others

lookup-update :
    (key : String) (d others : Dict String (List String))
    → lookup key (update d others) ≡ last_value key (lookup key d) others
unfolding update
lookup-update key d [] = refl
lookup-update key d ((k, v) ∷ others) =
    lookup-update key (insert k v d) others
    ∙ ap (λ o. last_value key o others) (lookup-insert k key v d)

ConfFile-cases :
    (c : ConfFile)
    → (c ≡ config_error)
      ⊎ ((text : Option String) × (section : Option (List (String × String))) × (c
            ≡ conf_file text section))
ConfFile-cases config_error = inl refl
ConfFile-cases (conf_file text section) = inr (text, section, refl)

module _ (parse_bool : String → Option Bool) (words : String → List String)
    (file : String → ConfFile) where
  abbrev pub last_in : String → Option (List String) → ConfFile → Option (List String)
  last_in key old config_error = old
  last_in key old (conf_file text section) = elim (enabled parse_bool words file text) [
    | none ↦ old
    | some b ↦ if b then last_value key old (conf_aliases parse_bool words file section) else old
  ]

  -- The value of a key after files that are read in order, of which only the enabled ones count.
  abbrev pub last_in_files : String → Option (List String) → List String → Option (List String)
  last_in_files key old [] = old
  last_in_files key old (filename ∷ filenames) =
      last_in_files key (last_in key old (file filename)) filenames

  abbrev pub Gives : String → Option (List String) → Loaded → Type 0
  Gives key value runtime_error = Unit
  Gives key value (loaded b aliases) = (b ≡ true) × (lookup key aliases ≡ value)

  files_loop :
      (key : String) (filenames : List String) (aliases : Dict String (List String))
      (old : Option (List String))
      → lookup key aliases ≡ old
      → Gives key
          (last_in_files key old filenames)
          (load_aliases parse_bool words file filenames aliases)
  unfolding load_aliases
  files_loop key [] aliases old e = (refl, e)
  files_loop key (filename ∷ filenames) aliases old e = elim (ConfFile-cases (file filename)) [
    | inl f ↦ rw (f, load_aliases) (files_loop key filenames aliases old e)
    | inr (text, section, f) ↦ elim (Option-cases (enabled parse_bool words file text)) [
      | inl n ↦ rw (f, n, load_aliases) tt
      | inr (true, t) ↦
          let read = conf_aliases parse_bool words file section in
          rw (f, last_in, t, load_aliases)
            (files_loop key filenames (update aliases read) (last_value key old read)
              (lookup-update key aliases read ∙ ap (λ o. last_value key o read) e))
      | inr (false, t) ↦ rw (f, last_in, t, load_aliases) (files_loop key filenames aliases old e)
    ]
  ]

  -- After the files are loaded, an alias is what the last enabled file that has it says, whatever
  -- the earlier ones say; the only other end is RuntimeError.
  pub load_aliases-Gives :
      (key : String) (filenames : List String) (aliases : Dict String (List String))
      → Gives key
          (last_in_files key (lookup key aliases) filenames)
          (load_aliases parse_bool words file filenames aliases)
  load_aliases-Gives key filenames aliases =
      files_loop key filenames aliases (lookup key aliases) refl
