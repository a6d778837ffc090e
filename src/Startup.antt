-- ===== src/Startup.antt =====
-- crates/nss_oidc/src/state.rs and crates/pam_oidc/src/state.rs: the singletons of the two modules.
-- A cell is what a `OnceLock<Option<A>>` holds, if anything.
pub mod Safe
use sssd_oidc.Prelude.{ℕ, false, Option, none, some, ◌⊎◌, if◌then◌else◌}
use sssd_oidc.Text.{Str, ascii}
use sssd_oidc.Outcome.{Outcome, ok, err, panic}
use sssd_oidc.Files.{Files}
use sssd_oidc.Logging.{Logger, init, facility_authpriv, facility_daemon}
use sssd_oidc.Config.{Config}
use sssd_oidc.Config.Load.{load}
use sssd_oidc.Database.{Engine}
use sssd_oidc.Cache.State.{Cache}
use sssd_oidc.Cache.Open.{Sqlite, open_cache}
use sssd_oidc.Scim
use sssd_oidc.Service.{Service}
use sssd_oidc.Service
use sssd_oidc.Nss.{NssState}
use sssd_oidc.Oidc.{OidcClient, Host}
use sssd_oidc.Oidc.Flow.{discover, discover_insecure}

-- `OnceLock::get_or_init`
unfoldable pub get_or_init {ℓ κ} :
    {A : Type ℓ} {S : Type κ} → (S → A × S) → Option A → S → A × Option A × S
get_or_init f (some kept) s = (kept, some kept, s)
get_or_init f none s = let (made, s') = f s in (made, some made, s')

-- The `match` that logs an error and gives up. Neither loading nor opening nor discovery has a
-- panic, so the last clause is not met.
unfoldable pub or_give_up : {E A : Type 0} → Outcome E A → Option A
or_give_up (ok a) = some a
or_give_up (err e) = none
or_give_up panic = none

-- What a process has: the files, and its logging.
pub record Machine (F : Type 0) : Type 0 where
  pub files : F
  pub logger : Logger

module _ {F : Type 0} (files : Files F) (from_str : Str → ℕ ⊎ Config) where
  -- `logging::init` and `Config::load`.
  unfoldable pub start : (ident : Str) (facility : ℕ) → Machine F → Option Config × Machine F
  unfolding or_give_up
  start ident facility machine =
      let (loaded, f) = load files from_str machine.files in
      (
        or_give_up loaded,
        record {
          files = f;
          logger = init (files.var (ascii "SSSD_OIDC_LOG")) ident facility machine.logger;
        },
      )

  module _ (database : Sqlite F) (engine : Engine) (murmur3_32 : Str → ℕ → Option ℕ) where
    unfoldable pub open_configured : Config → Machine F → Option Cache × Machine F
    unfolding or_give_up
    open_configured config machine =
        let (opened, f) =
          open_cache files database config.cache.db_path config.cache.ttl_seconds machine.files in
        (or_give_up opened, record machine { files = f })

    -- The configuration and the cache, and what is made of them.
    unfoldable pub with_cache :
        {A : Type 0}
        → (ident : Str) (facility : ℕ) → (Config → Cache → A)
        → Machine F
        → Option A × Machine F
    unfolding start open_configured
    with_cache ident facility make machine =
        let (loaded, machine₁) = start ident facility machine in
        elim loaded [
          | none ↦ (none, machine₁)
          | some config ↦
              let (opened, machine₂) = open_configured config machine₁ in
              elim opened [
                | none ↦ (none, machine₂)
                | some cache ↦ (some (make config cache), machine₂)
              ]
        ]

    -- The closure of `get_state`; both clients are made alike.
    unfoldable pub nss_state : Config → Cache → NssState
    nss_state config cache =
        let client = Scim.new config.scim.base_url config.scim.bearer_token in
        record {
          scim = client;
          service = Service.new engine murmur3_32 config client cache;
          poisoned = false;
        }

    unfoldable pub get_state :
        Option (Option NssState)
        → Machine F
        → Option NssState × Option (Option NssState) × Machine F
    unfolding with_cache
    get_state = get_or_init (with_cache (ascii "sssd_oidc") facility_daemon nss_state)

    unfoldable pub get_service :
        Option (Option Service) → Machine F → Option Service × Option (Option Service) × Machine F
    unfolding with_cache
    get_service = get_or_init (
        with_cache (ascii "pam_oidc") facility_authpriv (λ config cache.
          Service.new engine murmur3_32 config
            (Scim.new config.scim.base_url config.scim.bearer_token) cache))

  module _ {W : Type 0} (host : Host W) where
    -- The closure of `get_oidc_client`.
    unfoldable pub initial_client : Machine F × W → Option OidcClient × (Machine F × W)
    unfolding start or_give_up
    initial_client (machine, w) =
        let (loaded, machine') = start (ascii "pam_oidc") facility_authpriv machine in
        elim loaded [
          | none ↦ (none, (machine', w))
          | some config ↦
              let discover_fn =
                if config.oidc.allow_insecure then discover_insecure host else discover host in
              let (found, w') =
                discover_fn config.oidc.issuer_url config.oidc.client_id config.oidc.client_secret
                  w in
              (or_give_up found, (machine', w'))
        ]

    unfoldable pub get_oidc_client :
        Option (Option OidcClient)
        → Machine F × W
        → Option OidcClient × Option (Option OidcClient) × (Machine F × W)
    unfolding initial_client
    get_oidc_client = get_or_init initial_client
