-- ===== src/Cache/Hardening.antt =====
-- The file of a cache that `Cache::open` of src/cache.rs returns.
use sssd_oidc.Prelude.{
  ℕ, ◌+◌, ◌*◌, ◌/◌, ◌^◌, ◌≡◌, sym, ap, ◌∙◌, Bool, true, false, ◌==◌, if◌then◌else◌, ◌⊎◌, inl, inr,
  Bool-cases, arith,
}
use sssd_oidc.Text.{Str, ascii, str_eq}
use sssd_oidc.Outcome.{ok}
use sssd_oidc.Exec.{pure, ◌>>=◌}
use sssd_oidc.Exec.Success.{bind-ok, from_result-ok}
use sssd_oidc.Files.{Files, Metadata, access_bits}
use sssd_oidc.Database.{Db}
use sssd_oidc.Cache.State.{Cache}
use sssd_oidc.Cache.Open.{
  Sqlite, Batch, journal_mode_wal, create_tables, refuse_file, private_mode, stat_cache_file,
  tighten, harden_cache_file, open_connection, batch, open_cache,
}

-- Root's regular file, that only root reads and writes.
pub record IsPrivate (meta : Metadata) : Type 0 where
  pub regular : meta.is_file ≡ true
  pub owned : meta.uid ≡ 0
  pub mode : access_bits meta.mode ≡ private_mode

-- A mode whose twelve permission bits are replaced.
abbrev pub chmod : (mode : ℕ) → Metadata → Metadata
chmod mode meta = record meta { mode = meta.mode / 2 ^ 12 * 2 ^ 12 + mode }

-- Nobody else changes the file meanwhile: `inode` tells what is at a path, a look changes nothing, a
-- change of permissions that succeeds replaces the mode of that file, and SQLite's batches leave it.
pub record IsUndisturbed {F : Type 0} (files : Files F) (database : Sqlite F)
    (inode : F → Str → ℕ ⊎ Metadata) : Type 0 where
  pub looks : (path : Str) (f : F) → files.symlink_metadata path f ≡ (inode f path, f)
  pub changes :
      (path : Str) (mode : ℕ) (f f' : F) (meta : Metadata)
      → files.set_permissions path mode f ≡ (inr tt, f')
      → inode f path ≡ inr meta
      → inode f' path ≡ inr (chmod mode meta)
  pub keeps :
      (path : Str) (sql : Batch) (db : Db) (f : F)
      → inode (database.execute_batch path sql db f).1 path ≡ inode f path

refuse_file-ok :
    (path : Str) (meta : Metadata) (u : Unit {0})
    → refuse_file path meta ≡ ok u
    → (meta.is_file ≡ true) × (meta.uid ≡ 0)
unfolding refuse_file
refuse_file-ok path meta u h = (ground arith, ground arith)

module _ {F : Type 0} (files : Files F) (database : Sqlite F) (inode : F → Str → ℕ ⊎ Metadata)
    (undisturbed : IsUndisturbed files database inode) (path : Str) where
  stat-ok :
      (f f' : F) (meta : Metadata)
      → stat_cache_file files path f ≡ (ok meta, f')
      → (inode f path ≡ inr meta) × (f ≡ f')
  unfolding stat_cache_file
  stat-ok f f' meta h =
      let e = rw (undisturbed.looks path f) at h in
      (from_result-ok _ _ (ap (λ r. r.0) e), ap (λ r. r.1) e)

  tighten-IsPrivate :
      (f f' : F) (meta : Metadata) (u : Unit {0})
      → inode f path ≡ inr meta
      → meta.is_file ≡ true
      → meta.uid ≡ 0
      → tighten files path (access_bits meta.mode) f ≡ (ok u, f')
      → (meta' : Metadata) × (inode f' path ≡ inr meta') × IsPrivate meta'
  unfolding tighten
  tighten-IsPrivate f f' meta u here regular owned h =
      elim (Bool-cases (access_bits meta.mode == private_mode)) [
        | inl same ↦
            let e = rw same at h in
            (
              meta,
              rw (← ap (λ r. r.1) e) here,
              record { regular = regular; owned = owned; mode = ground arith },
            )
        | inr differs ↦
            let e = rw differs at h in
            let done = from_result-ok _ _ (ap (λ r. r.0) e) in
            let changed : files.set_permissions path private_mode f ≡ (inr tt, f') =
              λ i. (done i, (e i).1) in
            (
              chmod private_mode meta,
              undisturbed.changes path private_mode f f' meta changed here,
              record { regular = regular; owned = owned; mode = omega arith },
            )
      ]

  harden_cache_file-IsPrivate :
      (f f' : F) (u : Unit {0})
      → harden_cache_file files path f ≡ (ok u, f')
      → (meta : Metadata) × (inode f' path ≡ inr meta) × IsPrivate meta
  unfolding harden_cache_file
  harden_cache_file-IsPrivate f f' u h =
      let (meta, e₁, h₁) = bind-ok (stat_cache_file files path) _ f h in
      let (here, same) = stat-ok f _ meta e₁ in
      let (_, e₂, h₂) = bind-ok (λ f. (refuse_file path meta, f)) _ _ h₁ in
      let (regular, owned) = refuse_file-ok path meta _ (ap (λ r. r.0) e₂) in
      tighten-IsPrivate _ f' meta u (rw (← same) here) regular owned h₂

  hardened_if :
      (in_memory : Bool) (f f' : F) (u : Unit {0})
      → in_memory ≡ false
      → (if in_memory then pure tt else harden_cache_file files path) f ≡ (ok u, f')
      → (meta : Metadata) × (inode f' path ≡ inr meta) × IsPrivate meta
  hardened_if true f f' u on_disk h = cc
  hardened_if false f f' u on_disk h = harden_cache_file-IsPrivate f f' u h

  batch-keeps :
      (sql : Batch) (db : Db) (f : F)
      → inode (batch files database path sql db f).1 path ≡ inode f path
  unfolding batch
  batch-keeps sql db f = undisturbed.keeps path sql db f

  batches-keep :
      (ttl_seconds : ℕ) (conn : Db) (f f' : F) (cache : Cache)
      → (batch files database path journal_mode_wal conn >>= λ conn.
            batch files database path create_tables conn >>= λ conn.
            pure (record { conn = conn; ttl_seconds = ttl_seconds }))
          f
        ≡ (ok cache, f')
      → inode f' path ≡ inode f path
  batches-keep ttl_seconds conn f f' cache h =
      let (conn₁, e₁, h₁) = bind-ok (batch files database path journal_mode_wal conn) _ f h in
      let f₁ = (batch files database path journal_mode_wal conn f).1 in
      let (conn₂, e₂, h₂) = bind-ok (batch files database path create_tables conn₁) _ f₁ h₁ in
      ap (λ f. inode f path) (sym (ap (λ r. r.1) h₂))
      ∙ batch-keeps create_tables conn₁ f₁
      ∙ batch-keeps journal_mode_wal conn f

  -- If the cache at a path other than ":memory:" is opened, and nobody else changes the file
  -- meanwhile, it is a regular file of root's with mode 0600 when `open` returns.
  pub open_cache-IsPrivate :
      (ttl_seconds : ℕ) (f f' : F) (cache : Cache)
      → str_eq path (ascii ":memory:") ≡ false
      → open_cache files database path ttl_seconds f ≡ (ok cache, f')
      → (meta : Metadata) × (inode f' path ≡ inr meta) × IsPrivate meta
  unfolding open_cache
  open_cache-IsPrivate ttl_seconds f f' cache on_disk h =
      let (conn, e₁, h₁) = bind-ok (open_connection files database path) _ f h in
      let (_, e₂, h₂) =
        bind-ok (if str_eq path (ascii ":memory:") then pure tt else harden_cache_file files path) _
          _ h₁ in
      let (meta, here, private) = hardened_if _ _ _ _ on_disk e₂ in
      (meta, batches-keep ttl_seconds conn _ f' cache h₂ ∙ here, private)
