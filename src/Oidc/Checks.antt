-- ===== src/Oidc/Checks.antt =====
-- What the checks of src/oidc.rs establish of a client that discovery returns.
use sssd_oidc.Prelude.{
  ◌≡◌, true, List, ◌∷◌, ◌++◌, Option, inl, inr, Bool-cases, Option-cases, subst, ap,
}
use sssd_oidc.Text.{Str, ascii, str_eq, str_eq_iff, starts_with, trim_end_matches}
use sssd_oidc.Outcome.{Outcome, ok, from_result}
use sssd_oidc.Exec.Success.{bind-ok}
use sssd_oidc.Oidc.{OidcError, http, get_body, lift, OidcClient, DiscoveryDocument, Host}
use sssd_oidc.Oidc.Discovery.{require_secure, checked_client, client_of_document}
use sssd_oidc.Oidc.Flow.{discover_with_options, discover}

-- An address that the code takes to be secure.
abbrev pub IsHttps : Str → Type 0
IsHttps endpoint = starts_with endpoint (ascii "https://") ≡ true

-- The endpoints of the client use https, and its issuer is the canonical one up to final slashes.
pub record IsSecure (canonical_issuer : Str) (client : OidcClient) : Type 0 where
  pub token : IsHttps client.endpoints.token_endpoint
  pub device : IsHttps client.endpoints.device_authorization_endpoint
  pub jwks : IsHttps client.endpoints.jwks_uri
  pub issued : trim_end_matches client.endpoints.issuer b'/' ≡ canonical_issuer

require_secure-ok :
    (name endpoint : Str) (endpoints : List (Str × Str)) (next : Outcome OidcError OidcClient)
    {client : OidcClient}
    → require_secure ((name, endpoint) ∷ endpoints) next ≡ ok client
    → (IsHttps endpoint) × (require_secure endpoints next ≡ ok client)
unfolding require_secure
require_secure-ok name endpoint endpoints next h =
    elim (Bool-cases (starts_with endpoint (ascii "https://"))) [
      | inl e ↦ (e, rw (require_secure, e) at h)
      | inr e ↦ cc (rw (require_secure, e) at h)
    ]

checked_client-IsSecure :
    (canonical_issuer : Str) (client client' : OidcClient)
    → checked_client canonical_issuer true client ≡ ok client'
    → IsSecure canonical_issuer client'
unfolding checked_client
checked_client-IsSecure canonical_issuer client client' h =
    elim (Bool-cases (str_eq (trim_end_matches client.endpoints.issuer b'/') canonical_issuer)) [
      | inr e ↦ cc (rw (checked_client, e) at h)
      | inl e ↦
          let (token, h₁) = require_secure-ok _ _ _ _ (rw (checked_client, e) at h) in
          let (device, h₂) = require_secure-ok _ _ _ _ h₁ in
          let (jwks, h₃) = require_secure-ok _ _ _ _ h₂ in
          let same : client ≡ client' = unfold require_secure in cc in
          subst (IsSecure canonical_issuer) same
            (record { token = token; device = device; jwks = jwks; issued = (str_eq_iff _ _).0 e })
    ]

client_of_document-IsSecure :
    (canonical_issuer client_id : Str) (secret : Option Str) (doc : DiscoveryDocument)
    {client : OidcClient}
    → client_of_document canonical_issuer client_id secret true doc ≡ ok client
    → IsSecure canonical_issuer client
unfolding client_of_document
client_of_document-IsSecure canonical_issuer client_id secret doc h =
    elim (Option-cases doc.issuer) [
      | inl e ↦ cc (rw (e, client_of_document) at h)
      | inr (issuer, e₁) ↦ elim (Option-cases doc.token_endpoint) [
        | inl e ↦ cc (rw (e₁, e, client_of_document) at h)
        | inr (token_endpoint, e₂) ↦ elim (Option-cases doc.device_authorization_endpoint) [
          | inl e ↦ cc (rw (e₁, e₂, e, client_of_document) at h)
          | inr (device_endpoint, e₃) ↦ elim (Option-cases doc.jwks_uri) [
            | inl e ↦ cc (rw (e₁, e₂, e₃, e, client_of_document) at h)
            | inr (jwks_uri, e₄) ↦
                checked_client-IsSecure canonical_issuer _ _
                  (rw (e₁, e₂, e₃, e₄, client_of_document) at h)
          ]
        ]
      ]
    ]

-- A client that `discover` returns has a token, a device authorization and a key set endpoint that
-- use https, and its issuer is the configured one up to final slashes.
pub discover-IsSecure :
    {W : Type 0} (host : Host W) (issuer_url client_id : Str) (secret : Option Str) (w w' : W)
    (client : OidcClient)
    → discover host issuer_url client_id secret w ≡ (ok client, w')
    → IsSecure (trim_end_matches issuer_url b'/') client
unfolding discover discover_with_options
discover-IsSecure host issuer_url client_id secret w w' client h =
    let address = trim_end_matches issuer_url b'/' ++ ascii "/.well-known/openid-configuration" in
    let (body, _, h₁) = bind-ok (get_body host address) _ w h in
    let (doc, _, h₂) = bind-ok (lift (from_result http (host.read_discovery body))) _ _ h₁ in
    client_of_document-IsSecure (trim_end_matches issuer_url b'/') client_id secret doc
      (ap (λ r. r.0) h₂)
