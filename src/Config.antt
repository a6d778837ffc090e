-- ===== src/Config.antt =====
-- src/config.rs: the configuration, and the values that serde fills in for missing keys.
pub mod Load
pub mod Secret
use sssd_oidc.Prelude.{ℕ, Bool, Option}
use sssd_oidc.Text.{Str, ascii}

pub data OfflineAuthPolicy : Type 0 where
  cached_status deny : OfflineAuthPolicy

pub record SecurityConfig : Type 0 where
  pub offline_auth_policy : OfflineAuthPolicy

pub record ScimConfig : Type 0 where
  pub base_url : Str
  pub bearer_token_file : Str
  pub bearer_token : Str

pub record OidcConfig : Type 0 where
  pub issuer_url : Str
  pub client_id : Str
  pub client_secret : Option Str
  pub allow_insecure : Bool

pub record MappingConfig : Type 0 where
  pub uid_range_min : ℕ
  pub uid_range_size : ℕ
  pub gid_range_min : ℕ
  pub gid_range_size : ℕ

pub record UserDefaultsConfig : Type 0 where
  pub shell : Str
  pub home_template : Str

pub record CacheConfig : Type 0 where
  pub db_path : Str
  pub ttl_seconds : ℕ

pub record Config : Type 0 where
  pub scim : ScimConfig
  pub oidc : OidcConfig
  pub mapping : MappingConfig
  pub user_defaults : UserDefaultsConfig
  pub cache : CacheConfig
  pub security : SecurityConfig

abbrev pub default_range_min : ℕ
default_range_min = 200_000

abbrev pub default_range_size : ℕ
default_range_size = 200_000

-- `impl Default`
abbrev pub default_mapping : MappingConfig
default_mapping = record {
  uid_range_min = default_range_min;
  uid_range_size = default_range_size;
  gid_range_min = default_range_min;
  gid_range_size = default_range_size;
}

abbrev pub default_user_defaults : UserDefaultsConfig
default_user_defaults = record { shell = ascii "/bin/bash"; home_template = ascii "/home/{user}" }

abbrev pub default_cache : CacheConfig
default_cache = record { db_path = ascii "/var/lib/sssd-oidc/cache.db"; ttl_seconds = 3600 }

abbrev pub default_security : SecurityConfig
default_security = record { offline_auth_policy = OfflineAuthPolicy.cached_status }
