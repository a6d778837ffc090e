-- ===== src/Startup/Safe.antt =====
-- What the singletons of the two modules are made of.
use sssd_oidc.Prelude.{
  ℕ, ◌≡◌, refl, Option, none, some, ◌⊎◌, inl, inr, Option-cases, true, Bool-cases,
}
use sssd_oidc.Text.{Str, ascii, str_eq, trim_end_matches}
use sssd_oidc.Outcome.{Outcome, ok, err, panic}
use sssd_oidc.Exec.Success.{with_final}
use sssd_oidc.Files.{Files, Metadata}
use sssd_oidc.Config.{Config}
use sssd_oidc.Config.Load.{config_path, load}
use sssd_oidc.Config.Secret.{Loaded, load_from-Loaded}
use sssd_oidc.Logging.{facility_authpriv}
use sssd_oidc.Database.{Engine}
use sssd_oidc.Cache.State.{Cache}
use sssd_oidc.Cache.Open.{Sqlite}
use sssd_oidc.Cache.Hardening.{IsPrivate, IsUndisturbed}
use sssd_oidc.Oidc.{OidcClient, Host}
use sssd_oidc.Oidc.Checks.{IsSecure, discover-IsSecure}
use sssd_oidc.Startup.{Machine, get_or_init, or_give_up, start, initial_client, get_oidc_client}

or_give_up-some : {E A : Type 0} (r : Outcome E A) {a : A} → or_give_up r ≡ some a → r ≡ ok a
unfolding or_give_up
or_give_up-some (ok a) h = cc
or_give_up-some (err e) h = cc
or_give_up-some panic h = cc

get_or_init-first : {A S : Type 0} (f : S → A × S) (s : S) → (get_or_init f none s).0 ≡ (f s).0
unfolding get_or_init
get_or_init-first f s = refl

module _ {F : Type 0} (files : Files F) (from_str : Str → ℕ ⊎ Config) where
  -- The configuration that a process was started with.
  abbrev Configured : Machine F → Config → Type 0
  Configured machine config = Loaded files from_str (config_path files) machine.files config

  start-Loaded :
      (ident : Str) (facility : ℕ) (machine : Machine F) (config : Config)
      → (start files from_str ident facility machine).0 ≡ some config
      → Configured machine config
  unfolding start load
  start-Loaded ident facility machine config h =
      let loaded = or_give_up-some (load files from_str machine.files).0 h in
      load_from-Loaded files from_str (config_path files) machine.files _ config
        (with_final (load files from_str machine.files) loaded)

  -- If `get_oidc_client` has made a client, the configuration was loaded from its file, and unless it
  -- allows insecure endpoints the client's endpoints use https and its issuer is the configured one
  -- up to final slashes.
  pub get_oidc_client-IsSecure :
      {W : Type 0} (host : Host W) (machine : Machine F) (w : W) (client : OidcClient)
      → (get_oidc_client files from_str host none (machine, w)).0 ≡ some client
      → (config : Config) × Loaded files from_str (config_path files) machine.files config
        × ((config.oidc.allow_insecure ≡ true)
            ⊎ IsSecure (trim_end_matches config.oidc.issuer_url b'/') client)
  unfolding get_oidc_client initial_client get_or_init
  get_oidc_client-IsSecure host machine w client h =
      elim (Option-cases (start files from_str (ascii "pam_oidc") facility_authpriv machine).0) [
        | inl e ↦ cc (rw (e, initial_client) at h)
        | inr (config, e) ↦
            let g = rw (e, initial_client) at h in
            (
              config,
              start-Loaded (ascii "pam_oidc") facility_authpriv machine config e,
              elim (Bool-cases config.oidc.allow_insecure) [
                | inl insecure ↦ inl insecure
                | inr secure ↦
                    let found = or_give_up-some _ (rw secure at g) in
                    inr (
                      discover-IsSecure host config.oidc.issuer_url config.oidc.client_id
                        config.oidc.client_secret w _ client (with_final _ found))
              ],
            )
      ]

  module _ (database : Sqlite F) (engine : Engine) (murmur3_32 : Str → ℕ → Option ℕ)
      (inode : F → Str → ℕ ⊎ Metadata) (undisturbed : IsUndisturbed files database inode) where
    -- What a process is made of once it has a configuration and a cache.
    pub record Started {A : Type 0} (make : Config → Cache → A) (machine machine' : Machine F)
        (a : A) : Type 0 where
      pub config : Config
      pub cache : Cache
      pub configured : Loaded files from_str (config_path files) machine.files config
      pub made : a ≡ make config cache
      pub private :
          (str_eq config.cache.db_path (ascii ":memory:") ≡ true)
          ⊎ ((meta : Metadata) × (inode machine'.files config.cache.db_path ≡ inr meta)
              × IsPrivate meta)
