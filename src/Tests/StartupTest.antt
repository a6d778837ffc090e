-- ===== src/Tests/StartupTest.antt =====
-- Runs of what opens files: the configuration, the cache, and the singletons.
use sssd_oidc.Prelude.{true, ◌⊎◌, ◌≡◌, refl, false, none, some, inr}
use sssd_oidc.Text.{ascii, str_eq, trim_end_matches, starts_with}
use sssd_oidc.Text.Trim.{trim}
use sssd_oidc.Outcome.{ok}
use sssd_oidc.Files.{Metadata}
use sssd_oidc.Config.{Config}
use sssd_oidc.Config.Load.{
  secret_metadata, read_file, check_secret_file_permissions, config_path, load_from, load,
}
use sssd_oidc.Config.Secret.{Loaded}
use sssd_oidc.Cache.Open.{
  refuse_file, stat_cache_file, tighten, harden_cache_file, open_connection, batch, open_cache,
}
use sssd_oidc.Cache.Hardening.{IsPrivate, open_cache-IsPrivate}
use sssd_oidc.Nss.{NssState}
use sssd_oidc.Oidc.{get_body}
use sssd_oidc.Oidc.Discovery.{require_secure, checked_client, client_of_document}
use sssd_oidc.Oidc.Flow.{discover_with_options, discover}
use sssd_oidc.Oidc.Checks.{IsSecure}
use sssd_oidc.Startup.{get_or_init, or_give_up, start, nss_state, initial_client, get_oidc_client}
use sssd_oidc.Startup.Safe.{get_oidc_client-IsSecure}
use sssd_oidc.Tests.Fixtures.{engine_at, hash_7, empty_db, empty_cache}
use sssd_oidc.Tests.Provider.{host, client}
use sssd_oidc.Tests.Disk.{
  disk, private_file, shared_file, database, inode, undisturbed, loaded_config, from_str, machine,
}

-- A file with mode 0644 is tightened.
opened : open_cache disk database (ascii "/c") 60 shared_file ≡ (ok empty_cache, private_file)
unfolding open_cache open_connection harden_cache_file stat_cache_file refuse_file tighten batch
    str_eq
opened = refl

on_disk : str_eq (ascii "/c") (ascii ":memory:") ≡ false
unfolding str_eq
on_disk = refl

open_cache-IsPrivate_example :
    (meta : Metadata) × (inode private_file (ascii "/c") ≡ inr meta) × IsPrivate meta
open_cache-IsPrivate_example =
    open_cache-IsPrivate disk database inode undisturbed (ascii "/c") 60 shared_file private_file
      empty_cache on_disk opened

abbrev state : NssState
state =
    nss_state disk from_str database (engine_at 100) hash_7 loaded_config
      (record { conn = empty_db; ttl_seconds = loaded_config.cache.ttl_seconds })

pub discovered : (get_oidc_client disk from_str host none (machine, 0)).0 ≡ some client
unfolding get_oidc_client initial_client get_or_init start load load_from config_path read_file trim
    check_secret_file_permissions secret_metadata or_give_up discover discover_with_options get_body
    client_of_document checked_client require_secure trim_end_matches str_eq starts_with
discovered = refl

get_oidc_client-IsSecure_example :
    (config : Config) × Loaded disk from_str (config_path disk) private_file config
    × ((config.oidc.allow_insecure ≡ true)
        ⊎ IsSecure (trim_end_matches config.oidc.issuer_url b'/') client)
get_oidc_client-IsSecure_example =
    get_oidc_client-IsSecure disk from_str host machine 0 client discovered
