-- ===== src/Persistor/Kept.antt =====
-- What the files keep.
use dnf.Base.{
  String, Bool, true, false, not, ◌&&◌, ◌||◌, some, List, [], ◌∷◌, ◌++◌, mem, String_eq, ◌==◌, ◌≡◌,
  refl, ap, arith, ◌∙◌, Bool-cases, inl, inr,
}
use dnf.Base.Dict.{add}
use dnf.Persistor.{
  File, missing, empty_file, invalid, json, check_json_db, get_json_db, update_set, to_set,
  TempfilePersistor, no_files, get_saved_tempfiles, save, RepoPersistor, get_expired_repos,
  save_repos,
}

pub mem-append : (a : String) (l k : List String) → mem a (l ++ k) ≡ (mem a l || mem a k)
mem-append a [] k = refl
mem-append a (b ∷ l) k = ground (arith, mem-append a l k)

mem-add : (a b : String) (s : List String) → mem a (add b s) ≡ (mem a s || (a == b))
unfolding add
mem-add a b s = elim (Bool-cases (mem b s)) [
  | inl x ↦ elim (Bool-cases (a == b)) [
    | inl y ↦ rw (add, x, y) (ap (λ c. mem c s) ((String_eq.beq_iff a b).0 y) ∙ x ∙ ground arith)
    | inr y ↦ rw (add, x, y) (ground arith)
  ]
  | inr x ↦ rw (add, x) (mem-append a s (b ∷ []) ∙ ground arith)
]

pub mem-update_set :
    (a : String) (old other : List String)
    → mem a (update_set old other) ≡ (mem a old || mem a other)
unfolding update_set
mem-update_set a old [] = ground arith
mem-update_set a old (b ∷ other) =
    mem-update_set a (add b old) other ∙ rw (mem-add a b old) (ground arith)

-- A read leaves the file with what was read.
get_saved_tempfiles-again :
    (f : File) → (get_saved_tempfiles (get_saved_tempfiles f).1).0 ≡ (get_saved_tempfiles f).0
unfolding get_saved_tempfiles get_json_db check_json_db
get_saved_tempfiles-again missing = refl
get_saved_tempfiles-again empty_file = refl
get_saved_tempfiles-again invalid = refl
get_saved_tempfiles-again (json content) = refl

no_files-mem : (a : String) (l : List String) → no_files l ≡ true → mem a l ≡ false
no_files-mem a [] e = refl
no_files-mem a (b ∷ l) e = ground (arith, e)

pub mem-to_set : (a : String) (l : List String) → mem a (to_set l) ≡ mem a l
mem-to_set a l = mem-update_set a [] l

-- The names that are kept after `save`: none, where the persistor was emptied; otherwise those
-- that were kept and those that were to be added, and no others.
pub save-get_saved_tempfiles :
    (a : String) (p : TempfilePersistor) (f : File)
    → mem a (get_saved_tempfiles (save p f)).0
      ≡ (not p.is_empty && (mem a (get_saved_tempfiles f).0 || mem a p.tempfiles_to_add))
unfolding save get_saved_tempfiles
save-get_saved_tempfiles a p f = elim (Bool-cases p.is_empty) [
  | inl e ↦ rw (e)
  | inr e ↦ elim (Bool-cases (no_files p.tempfiles_to_add)) [
    | inl n ↦ rw (e, n, no_files-mem a p.tempfiles_to_add n) (ground arith)
    | inr n ↦
        rw (e, n)
          (mem-update_set a (to_set (get_json_db (check_json_db f)).0) p.tempfiles_to_add
            ∙ rw (mem-to_set a (get_json_db (check_json_db f)).0))
  ]
]

-- What the next run reads is what the last one stored.
pub save_repos-get_expired_repos :
    (is_touchable : Bool) (p : RepoPersistor) (f : File)
    → (get_expired_repos true (save_repos true is_touchable p f).1).0
      ≡ some (to_set p.expired_to_add)
unfolding save_repos get_expired_repos get_json_db check_json_db
save_repos-get_expired_repos is_touchable p f = elim (Bool-cases p.reset_last_makecache) [
  | inl e ↦ rw (e)
  | inr e ↦ rw (e)
]
