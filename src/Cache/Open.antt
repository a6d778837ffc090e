-- ===== src/Cache/Open.antt =====
-- src/cache.rs: opening the cache, on Linux. SQLite's connection is a parameter: what is at a path, and
-- what a batch of SQL makes of it.
use sssd_oidc.Prelude.{ℕ, not, ◌++◌, ◌==◌, if◌then◌else◌, ◌⊎◌}
use sssd_oidc.Text.{Str, ascii, str_eq, decimal}
use sssd_oidc.Outcome.{Outcome, ok, err, from_result}
use sssd_oidc.Exec.{Exec, pure, ◌>>=◌, ◌>>◌}
use sssd_oidc.Files.{Files, Metadata, access_bits, octal}
use sssd_oidc.Database.{Db, SqliteError}
use sssd_oidc.Cache.State.{Cache, CacheError, sqlite, insecure_permissions}

-- The two batches: `PRAGMA journal_mode=WAL;`, and the tables and indexes that do not exist yet.
pub data Batch : Type 0 where
  journal_mode_wal create_tables : Batch

pub record Sqlite (F : Type 0) : Type 0 where
  pub connect : (path : Str) → F → (SqliteError ⊎ Db) × F
  pub execute_batch : (path : Str) → Batch → Db → F → (SqliteError ⊎ Db) × F

-- The checks before the mode is looked at.
unfoldable pub refuse_file : (path : Str) → Metadata → Outcome CacheError (Unit {0})
refuse_file path meta =
    if not meta.is_file
    then err (insecure_permissions path (ascii "not a regular file"))
    else if not (meta.uid == 0)
    then err (
        insecure_permissions path
          (ascii "owned by uid " ++ decimal meta.uid ++ ascii " but must be owned by root (uid 0)"))
    else ok tt

-- 0o600
abbrev pub private_mode : ℕ
private_mode = 384

module _ {F : Type 0} (files : Files F) where
  unfoldable pub stat_cache_file : (path : Str) → Exec F CacheError Metadata
  stat_cache_file path f =
      let (found, f') = files.symlink_metadata path f in
      (
        from_result
            (λ e. insecure_permissions path (ascii "cannot stat file: " ++ files.error_text e))
            found,
        f',
      )

  unfoldable pub tighten : (path : Str) (mode : ℕ) → Exec F CacheError (Unit {0})
  tighten path mode f =
      if mode == private_mode
      then (ok tt, f)
      else let (changed, f') = files.set_permissions path private_mode f in
        (
          from_result
              (λ e. insecure_permissions path (
                ascii "permissions "
                ++ octal mode
                ++ ascii " are too open and could not be corrected: "
                ++ files.error_text e
                ++ ascii ". Run: chmod 600 "
                ++ path))
              changed,
          f',
        )

  unfoldable pub harden_cache_file : (path : Str) → Exec F CacheError (Unit {0})
  unfolding stat_cache_file refuse_file tighten
  harden_cache_file path = do
    meta ← stat_cache_file path
    λ f. (refuse_file path meta, f)
    tighten path (access_bits meta.mode)

  module _ (database : Sqlite F) where
    unfoldable pub open_connection : (path : Str) → Exec F CacheError Db
    open_connection path f =
        let (opened, f') = database.connect path f in (from_result sqlite opened, f')

    unfoldable pub batch : (path : Str) → Batch → Db → Exec F CacheError Db
    batch path sql conn f =
        let (done, f') = database.execute_batch path sql conn f in (from_result sqlite done, f')

    unfoldable pub open_cache : (path : Str) (ttl_seconds : ℕ) → Exec F CacheError Cache
    unfolding open_connection batch harden_cache_file
    open_cache path ttl_seconds = do
      conn ← open_connection path
      if str_eq path (ascii ":memory:") then pure tt else harden_cache_file path
      conn ← batch path journal_mode_wal conn
      conn ← batch path create_tables conn
      pure (record { conn = conn; ttl_seconds = ttl_seconds })

    unfoldable pub open_in_memory : Exec F CacheError Cache
    unfolding open_cache
    open_in_memory = open_cache (ascii ":memory:") 3600
