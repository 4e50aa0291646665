-- ===== src/Persistor/Repos.antt =====
-- What is kept of the repositories whose metadata expired: dnf/base.py, `_store_persistent_data`,
-- and dnf/cli/cli.py, `_configure_repos`.
use dnf.Base.{
  String, Bool, true, false, ◌&&◌, ◌||◌, Option, none, some, List, [], ◌∷◌, ◌++◌, mem,
  if◌then◌else◌, String_eq, ◌==◌, ◌≡◌, refl, ap, sym, arith, ◌∙◌, Bool-cases, inl, inr,
}
use dnf.Persistor.{File, update_set, to_set, RepoPersistor, get_expired_repos, save_repos}
use dnf.Persistor.Kept.{mem-append, mem-update_set, mem-to_set, save_repos-get_expired_repos}

-- A repository: what libdnf says of it.
pub record Repo : Type 0 where
  pub id : String
  pub is_enabled : Bool
  pub has_metadata : Bool
  pub is_expired : Bool

-- `[r.id for r in self.repos.iter_enabled() if (r.metadata and r._repo.isExpired())]`
unfoldable pub expired_ids : List Repo → List String
expired_ids [] = []
expired_ids (r ∷ repos) =
    let rest = expired_ids repos in
    if r.is_enabled && r.has_metadata && r.is_expired then r.id ∷ rest else rest

-- `_store_persistent_data`: the file of the expired repositories.
unfoldable pub store_expired :
    (is_cacheonly is_writable is_touchable : Bool) → List Repo → RepoPersistor → File → File
unfolding expired_ids update_set save_repos
store_expired is_cacheonly is_writable is_touchable repos p f =
    if is_cacheonly
    then f
    else (save_repos is_writable is_touchable
        (record p { expired_to_add = update_set p.expired_to_add (expired_ids repos) }) f).1

-- `repo._repo.expire()`
abbrev expire : Repo → Repo
expire r = record r { is_expired = true }

-- The body of the loop: the repositories are a dictionary, so one at most has the name.
unfoldable pub expire_named : String → List Repo → List Repo
expire_named rid [] = []
expire_named rid (r ∷ repos) = (if r.id == rid then expire r else r) ∷ expire_named rid repos

unfoldable pub expire_loop : List String → List Repo → List Repo
unfolding expire_named
expire_loop [] repos = repos
expire_loop (rid ∷ expired_repos) repos = expire_loop expired_repos (expire_named rid repos)

-- `repos.keys()`
unfoldable pub keys : List Repo → List String
keys [] = []
keys (r ∷ repos) = r.id ∷ keys repos

-- The loop over the list, or over all repositories where it could not be read.
unfoldable pub expire_listed : Option (List String) → List Repo → List Repo
unfolding expire_loop keys
expire_listed none repos = expire_loop (keys repos) repos
expire_listed (some expired_repos) repos = expire_loop expired_repos repos

-- The part of `_configure_repos` on expired repositories.
unfoldable pub expire_repos : (is_readable : Bool) → File → List Repo → List Repo
unfolding get_expired_repos expire_listed
expire_repos is_readable f repos = expire_listed (get_expired_repos is_readable f).0 repos

-- The repositories, where those of the names `l` are expired besides.
unfoldable pub with_expired : List String → List Repo → List Repo
with_expired l [] = []
with_expired l (r ∷ repos) =
    record r { is_expired = r.is_expired || mem r.id l } ∷ with_expired l repos

with_expired-nil : (repos : List Repo) → with_expired [] repos ≡ repos
unfolding with_expired
with_expired-nil [] = refl
with_expired-nil (r ∷ repos) =
    rw (with_expired-nil repos) (ap (λ b. record r { is_expired = b } ∷ repos) (ground arith))

with_expired-cons :
    (rid : String) (l : List String) (repos : List Repo)
    → with_expired l (expire_named rid repos) ≡ with_expired (rid ∷ l) repos
unfolding with_expired expire_named
with_expired-cons rid l [] = refl
with_expired-cons rid l (r ∷ repos) = elim (Bool-cases (r.id == rid)) [
  | inl e ↦
      rw (e, with_expired-cons rid l repos)
        (ap (λ b. record r { is_expired = b } ∷ with_expired (rid ∷ l) repos) (ground arith))
  | inr e ↦ rw (e, with_expired-cons rid l repos)
]

expire_loop_lem : (l : List String) (repos : List Repo) → expire_loop l repos ≡ with_expired l repos
unfolding expire_loop
expire_loop_lem [] repos = sym (with_expired-nil repos)
expire_loop_lem (rid ∷ l) repos =
    expire_loop_lem l (expire_named rid repos) ∙ with_expired-cons rid l repos

with_expired-same :
    (l k : List String) (repos : List Repo)
    → ((a : String) → mem a l ≡ mem a k)
    → with_expired l repos ≡ with_expired k repos
unfolding with_expired
with_expired-same l k [] same = refl
with_expired-same l k (r ∷ repos) same = rw (with_expired-same l k repos same, same r.id)

-- A run that can write its cache and the next one: of the repositories of the next, exactly those
-- are expired besides that the first found expired, or already meant to store.
pub expire_repos-store_expired :
    (is_touchable : Bool) (repos next : List Repo) (p : RepoPersistor) (f : File)
    → expire_repos true (store_expired false true is_touchable repos p f) next
      ≡ with_expired (p.expired_to_add ++ expired_ids repos) next
unfolding expire_repos expire_listed store_expired
expire_repos-store_expired is_touchable repos next p f =
    let all = update_set p.expired_to_add (expired_ids repos) in
    ap (λ l. expire_listed l next)
      (save_repos-get_expired_repos is_touchable (record p { expired_to_add = all }) f)
    ∙ (expire_loop_lem (to_set all) next
        ∙ with_expired-same (to_set all) (p.expired_to_add ++ expired_ids repos) next (λ a.
          mem-to_set a all
          ∙ mem-update_set a p.expired_to_add (expired_ids repos)
          ∙ sym (mem-append a p.expired_to_add (expired_ids repos))))
