-- ===== src/Cache/State.antt =====
-- src/cache.rs: the `Cache` struct and its errors. The connection is the database that it opens.
use sssd_oidc.Prelude.{ℕ}
use sssd_oidc.Text.{Str}
use sssd_oidc.Mapping.{FromExhausted}
use sssd_oidc.Database.{Db, SqliteError}

pub data CacheError : Type 0 where
  sqlite : SqliteError → CacheError
  range_exhausted : CacheError
  insecure_permissions : (path detail : Str) → CacheError

instance abbrev pub cache_error_from_exhausted : FromExhausted CacheError
cache_error_from_exhausted = record { from = λ _. range_exhausted }

pub record Cache : Type 0 where
  pub conn : Db
  pub ttl_seconds : ℕ
