-- ===== src/Pam/Issuer.antt =====
-- A login through crates/pam_oidc, from the configuration to the token.
use sssd_oidc.Prelude.{true, inl, inr, ℕ, ◌≡◌, ap, ◌∙◌, Option, none, some, ◌⊎◌}
use sssd_oidc.Text.{Str, trim_end_matches}
use sssd_oidc.Files.{Files}
use sssd_oidc.Config.{Config}
use sssd_oidc.Config.Load.{config_path}
use sssd_oidc.Config.Secret.{Loaded}
use sssd_oidc.Database.{Engine}
use sssd_oidc.Scim.{Http}
use sssd_oidc.Oidc.{OidcClient, Host, Jwt}
use sssd_oidc.Oidc.Checks.{IsHttps}
use sssd_oidc.Oidc.Vouched.{IsDocumented, IsVouched, validate_id_token-IsVouched}
use sssd_oidc.Startup.{Machine, get_oidc_client}
use sssd_oidc.Startup.Safe.{get_oidc_client-IsSecure}
use sssd_oidc.Pam.{code, pam_success, PamHandle, PamState, authenticate_impl}
use sssd_oidc.Pam.Success.{Login, authenticate_impl-success}

module _ {F W : Type 0} (files : Files F) (from_str : Str → ℕ ⊎ Config) (engine : Engine)
    (murmur3_32 : Str → ℕ → Option ℕ) (server : Http) (jwt : Jwt)
    (IsSigned : (id_token key : Str) → Type 0) (documented : IsDocumented jwt IsSigned)
    (host : Host W) (pamh : PamHandle W) where
  -- What a user that is let in has shown, and under which configuration.
  pub record Trusted (fuel : ℕ) (machine : Machine F) (state : PamState W) : Type 0 where
    pub config : Config
    pub client : OidcClient
    pub configured : Loaded files from_str (config_path files) machine.files config
    pub login : Login engine murmur3_32 server jwt host pamh fuel client state
    pub vouched :
        IsVouched host jwt IsSigned documented client login.id_token login.polled login.claims
    pub checked :
        (config.oidc.allow_insecure ≡ true)
        ⊎ (IsHttps client.endpoints.jwks_uri
            × (trim_end_matches login.claims.iss b'/'
                ≡ trim_end_matches config.oidc.issuer_url b'/'))

  -- If `pam_sm_authenticate` succeeds with the client that `get_oidc_client` made from the
  -- configuration file, and jsonwebtoken finds and checks what it documents, there was a login, its ID
  -- token was signed with a key made from an entry of the key set that was then read from the client's
  -- key set endpoint, an entry with the token's key id if it names one and the first entry if not;
  -- and, unless the configuration allows insecure endpoints, that endpoint uses https and the token's
  -- issuer is the configured one up to final slashes.
  pub authenticate_impl-Trusted :
      (fuel : ℕ) (machine : Machine F) (w : W) (state state' : PamState W)
      → authenticate_impl engine murmur3_32 server jwt host pamh fuel
          (get_oidc_client files from_str host none (machine, w)).0
          state
        ≡ some (code pam_success, state')
      → Trusted fuel machine state
  authenticate_impl-Trusted fuel machine w state state' h =
      let oidc_client = (get_oidc_client files from_str host none (machine, w)).0 in
      let (client, given, login) =
        authenticate_impl-success engine murmur3_32 server jwt host pamh fuel oidc_client state
          state' h in
      let (config, configured, secure) =
        get_oidc_client-IsSecure files from_str host machine w client given in
      let vouched =
        validate_id_token-IsVouched host jwt IsSigned documented client login.id_token login.polled
          login.validated login.claims login.valid in
      record {
        config = config;
        client = client;
        configured = configured;
        login = login;
        vouched = vouched;
        checked = elim secure [
          | inl insecure ↦ inl insecure
          | inr strict ↦
              inr
                (strict.jwks, ap (λ iss. trim_end_matches iss b'/') vouched.issued ∙ strict.issued)
        ];
      }
