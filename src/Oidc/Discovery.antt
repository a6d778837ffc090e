-- ===== src/Oidc/Discovery.antt =====
-- src/oidc.rs: the checks on the discovery document.
use sssd_oidc.Prelude.{Bool, not, List, [], ◌∷◌, ◌++◌, Option, if◌then◌else◌}
use sssd_oidc.Text.{Str, ascii, str_eq, starts_with, trim_end_matches}
use sssd_oidc.Outcome.{Outcome, ok, err, ◌>>=◌}
use sssd_oidc.Oidc.{
  OidcError, missing_field, issuer_mismatch, insecure_endpoint, OidcClient, DiscoveryDocument,
  ok_or,
}

-- The loop over the endpoints that must use https; what follows it is `next`.
unfoldable pub require_secure :
    List (Str × Str) → Outcome OidcError OidcClient → Outcome OidcError OidcClient
require_secure [] next = next
require_secure ((name, endpoint) ∷ endpoints) next =
    let rest = require_secure endpoints next in
    if not (starts_with endpoint (ascii "https://"))
    then err (insecure_endpoint (name ++ ascii ": " ++ endpoint))
    else rest

-- The checks of the issuer and, where https is required, of the endpoints.
unfoldable pub checked_client :
    (canonical_issuer : Str) (require_https : Bool) → OidcClient → Outcome OidcError OidcClient
checked_client canonical_issuer require_https client =
    let endpoints = client.endpoints in
    let secured =
      require_secure
        ((ascii "token_endpoint", endpoints.token_endpoint)
          ∷ (ascii "device_authorization_endpoint", endpoints.device_authorization_endpoint)
          ∷ (ascii "jwks_uri", endpoints.jwks_uri)
          ∷ [])
        (ok client) in
    if not (str_eq (trim_end_matches endpoints.issuer b'/') canonical_issuer)
    then err (issuer_mismatch canonical_issuer endpoints.issuer)
    else if require_https
    then secured
    else ok client

-- From the document to the client.
unfoldable pub client_of_document :
    (canonical_issuer client_id : Str)
    → Option Str
    → (require_https : Bool) → DiscoveryDocument
    → Outcome OidcError OidcClient
client_of_document canonical_issuer client_id client_secret require_https doc = do
  issuer ← ok_or (missing_field (ascii "issuer")) doc.issuer
  token_endpoint ← ok_or (missing_field (ascii "token_endpoint")) doc.token_endpoint
  device_authorization_endpoint ←
      ok_or (missing_field (ascii "device_authorization_endpoint"))
        doc.device_authorization_endpoint
  jwks_uri ← ok_or (missing_field (ascii "jwks_uri")) doc.jwks_uri
  checked_client canonical_issuer require_https (record {
    endpoints = record {
      device_authorization_endpoint = device_authorization_endpoint;
      token_endpoint = token_endpoint;
      issuer = issuer;
      jwks_uri = jwks_uri;
    };
    client_id = client_id;
    client_secret = client_secret;
  })
