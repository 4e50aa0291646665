-- ===== src/Persistor/Finalize.antt =====
-- dnf/base.py: `_add_tempfiles`, `_clean_packages`, `_finalize_base` and the part of
-- `_store_persistent_data` that keeps the list of packages.
use dnf.Base.{
  String, Bool, false, not, ◌&&◌, ◌||◌, List, [], ◌∷◌, mem, if◌then◌else◌, String_eq, ◌==◌, ◌≡◌, ap,
  arith, ◌∙◌, Bool-cases, inl, inr,
}
use dnf.Persistor.Kept.{mem-update_set, save-get_saved_tempfiles}
use dnf.Persistor.{File, update_set, TempfilePersistor, start, empty, get_saved_tempfiles, save}

-- The packages that the run downloaded, what became of its transaction, and two options.
pub record Run : Type 0 where
  pub tempfiles : List String
  pub trans_tempfiles : List String
  pub has_transaction : Bool
  pub trans_success : Bool
  pub trans_install_set : Bool
  pub keepcache : Bool
  pub has_destdir : Bool

-- `_add_tempfiles`
unfoldable pub add_tempfiles : List String → Run → Run
unfolding update_set
add_tempfiles files b =
    if b.has_transaction
    then record b { trans_tempfiles = update_set b.trans_tempfiles files }
    else if b.has_destdir
    then b
    else record b { tempfiles = update_set b.tempfiles files }

-- Which files there are.
abbrev Disk : Type 0
Disk = String → Bool

-- `misc.unlink_f` of one package, where the system lets it be removed.
unfoldable pub unlink_package : (is_removable : String → Bool) → String → Disk → Disk
unlink_package is_removable fn disk a =
    if not (disk fn) then disk a else if is_removable fn then disk a && not (a == fn) else disk a

-- `_clean_packages`
unfoldable pub clean_packages : (is_removable : String → Bool) → List String → Disk → Disk
clean_packages is_removable [] disk = disk
clean_packages is_removable (fn ∷ packages) disk =
    clean_packages is_removable packages (unlink_package is_removable fn disk)

-- What is on the disk, and the file of the persistor.
pub record Stored : Type 0 where
  pub disk : Disk
  pub saved : File

-- `_finalize_base` up to the call of `_store_persistent_data`: what is stored, the run and the
-- persistor.
unfoldable pub finalize_packages :
    (is_removable : String → Bool) → Run → Stored → Stored × Run × TempfilePersistor
unfolding clean_packages get_saved_tempfiles empty update_set
finalize_packages is_removable b s =
    let cleaned = clean_packages is_removable b.tempfiles s.disk in
    let kept = get_saved_tempfiles s.saved in
    let all = update_set b.trans_tempfiles kept.0 in
    let added = update_set start.tempfiles_to_add b.trans_tempfiles in
    if b.keepcache
    then (s, b, start)
    else if b.trans_success
    then (
      record {
        disk = if b.trans_install_set then clean_packages is_removable all cleaned else cleaned;
        saved = kept.1;
      },
      record b { trans_tempfiles = all },
      empty start,
    )
    else (record s { disk = cleaned }, b, record start { tempfiles_to_add = added })

-- `_finalize_base`: what is stored, and the run, with its mark of success unset.
unfoldable pub finalize_base : (is_removable : String → Bool) → Run → Stored → Stored × Run
unfolding finalize_packages save
finalize_base is_removable b s =
    let r = finalize_packages is_removable b s in
    (record r.0 { saved = save r.2 r.0.saved }, record r.1 { trans_success = false })

unlink_package_lem :
    (is_removable : String → Bool) (fn a : String) (disk : Disk)
    → unlink_package is_removable fn disk a ≡ (disk a && not (is_removable a && (a == fn)))
unfolding unlink_package
unlink_package_lem is_removable fn a disk = elim (Bool-cases (a == fn)) [
  | inl e ↦ let p = (String_eq.beq_iff a fn).0 e in ground (arith, e, ap disk p, ap is_removable p)
  | inr e ↦ ground (arith, e)
]

-- Of the files there are, those of the packages that can be removed are gone, and no others.
clean_packages_lem :
    (is_removable : String → Bool) (packages : List String) (disk : Disk) (a : String)
    → clean_packages is_removable packages disk a
      ≡ (disk a && not (is_removable a && mem a packages))
unfolding clean_packages
clean_packages_lem is_removable [] disk a = ground arith
clean_packages_lem is_removable (fn ∷ packages) disk a =
    clean_packages_lem is_removable packages (unlink_package is_removable fn disk) a
    ∙ rw (unlink_package_lem is_removable fn a disk) (ground arith)

-- Which packages the run removes, where the system lets them be: those outside of the transaction,
-- and after a transaction that succeeded and installed something, its own and those kept before.
unfoldable pub is_cleaned : Run → Stored → String → Bool
unfolding get_saved_tempfiles
is_cleaned b s a =
    not b.keepcache
    && (mem a b.tempfiles
        || (b.trans_success
            && b.trans_install_set
            && (mem a b.trans_tempfiles || mem a (get_saved_tempfiles s.saved).0)))

-- Which names are kept for a later run.
unfoldable pub is_kept : Run → Stored → String → Bool
unfolding get_saved_tempfiles
is_kept b s a =
    if b.keepcache
    then mem a (get_saved_tempfiles s.saved).0
    else not b.trans_success && (mem a (get_saved_tempfiles s.saved).0 || mem a b.trans_tempfiles)

finalize_base-disk :
    (is_removable : String → Bool) (b : Run) (s : Stored) (a : String)
    → (finalize_base is_removable b s).0.disk a
      ≡ (s.disk a && not (is_removable a && is_cleaned b s a))
unfolding finalize_base finalize_packages is_cleaned
finalize_base-disk is_removable b s a = elim (Bool-cases b.keepcache) [
  | inl k ↦ rw (k) (ground arith)
  | inr k ↦ elim (Bool-cases b.trans_success) [
    | inl t ↦ elim (Bool-cases b.trans_install_set) [
      | inl i ↦
          rw (k, t, i)
            (clean_packages_lem is_removable
                (update_set b.trans_tempfiles (get_saved_tempfiles s.saved).0)
                (clean_packages is_removable b.tempfiles s.disk) a
              ∙ rw
                  (
                    mem-update_set a b.trans_tempfiles (get_saved_tempfiles s.saved).0,
                    clean_packages_lem is_removable b.tempfiles s.disk a,
                  )
                  (ground arith))
      | inr i ↦ rw (k, t, i) (clean_packages_lem is_removable b.tempfiles s.disk a ∙ ground arith)
    ]
    | inr t ↦ rw (k, t) (clean_packages_lem is_removable b.tempfiles s.disk a ∙ ground arith)
  ]
]

finalize_packages-saved :
    (is_removable : String → Bool) (b : Run) (s : Stored) (a : String)
    → (not (finalize_packages is_removable b s).2.is_empty
        && (mem a (get_saved_tempfiles (finalize_packages is_removable b s).0.saved).0
            || mem a (finalize_packages is_removable b s).2.tempfiles_to_add))
      ≡ is_kept b s a
unfolding finalize_packages is_kept
finalize_packages-saved is_removable b s a = elim (Bool-cases b.keepcache) [
  | inl k ↦ rw (k) (ground arith)
  | inr k ↦ elim (Bool-cases b.trans_success) [
    | inl t ↦ rw (k, t)
    | inr t ↦ rw (k, t) (rw (mem-update_set a [] b.trans_tempfiles))
  ]
]

finalize_base-saved :
    (is_removable : String → Bool) (b : Run) (s : Stored) (a : String)
    → mem a (get_saved_tempfiles (finalize_base is_removable b s).0.saved).0 ≡ is_kept b s a
unfolding finalize_base
finalize_base-saved is_removable b s a =
    let r = finalize_packages is_removable b s in
    save-get_saved_tempfiles a r.2 r.0.saved ∙ finalize_packages-saved is_removable b s a

-- At the end of a run a package is on the disk where it was there before, unless it was cleaned
-- and the system let it be removed; and its name is kept for a later run exactly as `is_kept` says.
pub finalize_base-files :
    (is_removable : String → Bool) (b : Run) (s : Stored) (a : String)
    → ((finalize_base is_removable b s).0.disk a
        ≡ (s.disk a && not (is_removable a && is_cleaned b s a)))
      × (mem a (get_saved_tempfiles (finalize_base is_removable b s).0.saved).0 ≡ is_kept b s a)
finalize_base-files is_removable b s a =
    (finalize_base-disk is_removable b s a, finalize_base-saved is_removable b s a)
