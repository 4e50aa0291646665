-- ===== src/Persistor/Tests.antt =====
-- A run whose transaction failed, and the next one; repositories of two runs.
use dnf.Base.{String, Bool, true, false, not, ◌&&◌, List, [], ◌∷◌, ◌++◌, mem, String_eq, ◌≡◌, refl}
use dnf.Base.Dict.{add}
use dnf.Persistor.{
  missing, invalid, json, check_json_db, get_json_db, update_set, RepoPersistor,
  get_saved_tempfiles, save, get_expired_repos, save_repos,
}
use dnf.Persistor.Finalize.{
  Run, Stored, add_tempfiles, unlink_package, clean_packages, finalize_packages, finalize_base,
  is_cleaned, is_kept, finalize_base-files,
}
use dnf.Persistor.Repos.{
  Repo, expired_ids, store_expired, expire_named, expire_loop, keys, expire_listed, expire_repos,
  with_expired, expire_repos-store_expired,
}

program : Unit {0}
unfolding add check_json_db get_json_db update_set get_saved_tempfiles save get_expired_repos
    save_repos add_tempfiles unlink_package clean_packages finalize_packages finalize_base
    expired_ids store_expired expire_named expire_loop keys expire_listed expire_repos
program = tt

abbrev packages : List String
packages = "old.rpm" ∷ "new.rpm" ∷ "other.rpm" ∷ []

abbrev no_run : Run
no_run = record {
  tempfiles = [];
  trans_tempfiles = [];
  has_transaction = true;
  trans_success = false;
  trans_install_set = true;
  keepcache = false;
  has_destdir = false;
}

abbrev failed : Run
failed = record no_run { trans_tempfiles = "new.rpm" ∷ [] }

abbrev succeeded : Run
succeeded = record no_run { trans_success = true }

abbrev nothing_installed : Run
nothing_installed = record succeeded { trans_install_set = false }

abbrev cache : Stored
cache = record { disk = λ a. mem a packages; saved = json ("old.rpm" ∷ []) }

abbrev all_removable : String → Bool
all_removable a = true

add_tempfiles-no_run : add_tempfiles ("new.rpm" ∷ "new.rpm" ∷ []) no_run ≡ failed
unfolding program
add_tempfiles-no_run = refl

-- After the failure both names are kept; the success that follows removes both packages.
finalize_base-failed :
    ((finalize_base all_removable failed cache).0.saved ≡ json ("old.rpm" ∷ "new.rpm" ∷ []))
    × ((finalize_base all_removable succeeded (finalize_base all_removable failed cache).0).0.disk
          "new.rpm"
        ≡ false)
unfolding program
finalize_base-failed = (refl, refl)

-- A success that installs nothing forgets the package and leaves it on the disk.
finalize_base-forgotten :
    ((finalize_base all_removable nothing_installed cache).0.saved ≡ json [])
    × ((finalize_base all_removable nothing_installed cache).0.disk "old.rpm" ≡ true)
unfolding program
finalize_base-forgotten = (refl, refl)

finalize_base-files_example :
    ((finalize_base all_removable succeeded cache).0.disk "old.rpm" ≡ (
      mem "old.rpm" packages
      && not (all_removable "old.rpm" && is_cleaned succeeded cache "old.rpm")))
    × (mem "old.rpm" (get_saved_tempfiles (finalize_base all_removable succeeded cache).0.saved).0
        ≡ is_kept succeeded cache "old.rpm")
finalize_base-files_example = finalize_base-files all_removable succeeded cache "old.rpm"

abbrev fresh : String → Repo
fresh id = record { id = id; is_enabled = true; has_metadata = true; is_expired = false }

abbrev expired_run : List Repo
expired_run = fresh "base" ∷ record (fresh "updates") { is_expired = true } ∷ []

abbrev next_run : List Repo
next_run = fresh "updates" ∷ fresh "base" ∷ []

abbrev nothing_to_add : RepoPersistor
nothing_to_add = record { expired_to_add = []; reset_last_makecache = true }

expire_repos-invalid : expire_repos true invalid next_run ≡ next_run
unfolding program
expire_repos-invalid = refl

expire_repos-unreadable :
    expire_repos false missing (fresh "base" ∷ [])
    ≡ record (fresh "base") { is_expired = true } ∷ []
unfolding program
expire_repos-unreadable = refl

expire_repos-store_expired_example :
    expire_repos true (store_expired false true false expired_run nothing_to_add missing) next_run
    ≡ with_expired ([] ++ expired_ids expired_run) next_run
expire_repos-store_expired_example =
    expire_repos-store_expired false expired_run next_run nothing_to_add missing
