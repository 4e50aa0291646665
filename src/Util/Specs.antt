-- ===== src/Util/Specs.antt =====
-- `_parse_specs` of dnf/util.py: arguments as packages, groups and file names.
use dnf.Base.{
  Bool, true, not, ◌&&◌, ◌||◌, List, [], ◌∷◌, ◌++◌, filter, map, mem, ◌≡◌, refl, arith,
  append_assoc, append-nil, if◌then◌else◌, ap, ◌∙◌, sym, Bool-cases, inl, inr, ◌==◌, String_eq,
  String,
}
use dnf.Base.Text.{codes, starts_with, ends_with}

pub record Specs : Type 0 where
  pub filenames : List String
  pub grp_specs : List String
  pub pkg_specs : List String

-- `value[1:]`
abbrev pub tail : String → String
tail String.[] = ""
tail (String.◌∷◌ c s) = s

-- `urlparse(value)[0]` is `scheme`.
module _ (scheme : String → String) where
  abbrev pub is_filename : String → Bool
  is_filename value =
      ends_with (codes ".rpm") (codes value)
      || mem (scheme value) ("http" ∷ "ftp" ∷ "file" ∷ "https" ∷ [])

  abbrev is_at : String → Bool
  is_at value = starts_with (codes "@") (codes value)

  -- The branches of the loop.
  unfoldable pub add_spec : String → Specs → Specs
  add_spec value s =
      if is_filename value
      then record {
        filenames = s.filenames ++ value ∷ [];
        grp_specs = s.grp_specs;
        pkg_specs = s.pkg_specs;
      }
      else if is_at value
      then record {
        filenames = s.filenames;
        grp_specs = s.grp_specs ++ tail value ∷ [];
        pkg_specs = s.pkg_specs;
      }
      else record {
        filenames = s.filenames;
        grp_specs = s.grp_specs;
        pkg_specs = s.pkg_specs ++ value ∷ [];
      }

  unfoldable pub specs_loop : (tmp_set : List String) → List String → Specs → Specs
  unfolding add_spec
  specs_loop tmp_set [] s = s
  specs_loop tmp_set (value ∷ values) s =
      if mem value tmp_set
      then specs_loop tmp_set values s
      else specs_loop (value ∷ tmp_set) values (add_spec value s)

  unfoldable pub parse_specs : List String → Specs
  unfolding specs_loop
  parse_specs values =
      specs_loop [] values (record { filenames = []; grp_specs = []; pkg_specs = [] })

  -- Every value once, where it first stands.
  unfoldable pub unique : List String → List String
  unique [] = []
  unique (value ∷ values) = value ∷ filter (λ v. not (v == value)) (unique values)

  abbrev pub is_group : String → Bool
  is_group value = not (is_filename value) && is_at value

  abbrev pub is_package : String → Bool
  is_package value = not (is_filename value) && not (is_at value)

  -- What the values, each taken once, add to the lists.
  abbrev extend : Specs → List String → Specs
  extend s values = record {
    filenames = s.filenames ++ filter is_filename values;
    grp_specs = s.grp_specs ++ map tail (filter is_group values);
    pkg_specs = s.pkg_specs ++ filter is_package values;
  }

  filter-filter :
      (p q r : String → Bool)
      → ((v : String) → (q v && p v) ≡ r v)
      → (values : List String) → filter p (filter q values) ≡ filter r values
  filter-filter p q r h [] = refl
  filter-filter p q r h (v ∷ values) = ground (arith, h v, filter-filter p q r h values)

  seen :
      (value v : String) (tmp_set : List String)
      → mem value tmp_set ≡ true
      → (not (v == value) && not (mem v tmp_set)) ≡ not (mem v tmp_set)
  seen value v tmp_set h = elim (Bool-cases (v == value)) [
    | inl e ↦ rw (e, (String_eq.beq_iff v value).0 e, h) refl
    | inr e ↦ rw e refl
  ]

  extend-add_spec :
      (value : String) (values : List String) (s : Specs)
      → extend (add_spec value s) values ≡ extend s (value ∷ values)
  unfolding add_spec
  extend-add_spec value values s = elim (Bool-cases (is_filename value)) [
    | inl h ↦
        rw (h, add_spec)
          (rw (append_assoc s.filenames (value ∷ []) (filter is_filename values)) refl)
    | inr h ↦ elim (Bool-cases (is_at value)) [
      | inl k ↦
          rw (h, k, add_spec)
            (rw (append_assoc s.grp_specs (tail value ∷ []) (map tail (filter is_group values)))
              refl)
      | inr k ↦
          rw (h, k, add_spec)
            (rw (append_assoc s.pkg_specs (value ∷ []) (filter is_package values)) refl)
    ]
  ]

  specs_loop-extend :
      (tmp_set values : List String) (s : Specs)
      → specs_loop tmp_set values s ≡ extend s (filter (λ v. not (mem v tmp_set)) (unique values))
  unfolding specs_loop unique
  specs_loop-extend tmp_set [] s =
      rw (append-nil s.filenames, append-nil s.grp_specs, append-nil s.pkg_specs) refl
  specs_loop-extend tmp_set (value ∷ values) s = elim (Bool-cases (mem value tmp_set)) [
    | inl h ↦
        rw (h, specs_loop)
          (specs_loop-extend tmp_set values s
            ∙ ap (extend s) (
                sym (
                  filter-filter (λ v. not (mem v tmp_set)) (λ v. not (v == value))
                    (λ v. not (mem v tmp_set)) (λ v. seen value v tmp_set h) (unique values))))
    | inr h ↦
        rw (h, specs_loop)
          (specs_loop-extend (value ∷ tmp_set) values (add_spec value s)
            ∙ extend-add_spec value (filter (λ v. not (mem v (value ∷ tmp_set))) (unique values)) s
            ∙ ap (λ l. extend s (value ∷ l))
                (sym (
                  filter-filter (λ v. not (mem v tmp_set)) (λ v. not (v == value))
                    (λ v. not (mem v (value ∷ tmp_set))) (λ v. ground arith) (unique values))))
  ]

  filter-true : (values : List String) → filter (λ v. true) values ≡ values
  filter-true [] = refl
  filter-true (v ∷ values) = ap (λ l. v ∷ l) (filter-true values)

  -- The values are taken once, where they first stand. The file names are those that end in .rpm or
  -- have one of the four schemes; the groups those of the others that start with @, without it; and
  -- the packages the rest, each list in the order of the values.
  pub parse_specs-unique :
      (values : List String)
      → parse_specs values ≡ record {
        filenames = filter is_filename (unique values);
        grp_specs = map tail (filter is_group (unique values));
        pkg_specs = filter is_package (unique values);
      }
  unfolding parse_specs
  parse_specs-unique values =
      specs_loop-extend [] values (record { filenames = []; grp_specs = []; pkg_specs = [] })
      ∙ rw (filter-true (unique values)) refl

  mem-filter :
      (value v : String) (values : List String)
      → mem v (filter (λ u. not (u == value)) values) ≡ (not (v == value) && mem v values)
  mem-filter value v [] = ground arith
  mem-filter value v (u ∷ values) = ground (arith, mem-filter value v values, String_eq.beq_iff v u)

  -- No value is lost or made up.
  mem-unique : (v : String) (values : List String) → mem v (unique values) ≡ mem v values
  unfolding unique
  mem-unique v [] = refl
  mem-unique v (value ∷ values) =
      ground (arith, mem-filter value v (unique values), mem-unique v values)
