-- ===== src/Oidc/Tokens.antt =====
-- src/oidc.rs: the validation of an ID token.
use sssd_oidc.Prelude.{true, List, [], ◌∷◌, ◌++◌, Option, none, some, first}
use sssd_oidc.Text.{Str, ascii}
use sssd_oidc.Outcome.{Outcome, from_result}
use sssd_oidc.Exec.{Exec, ◌>>=◌}
use sssd_oidc.Oidc.{
  OidcError, http, get_body, id_token_decode, jwt_validation, OidcClient, IdTokenClaims, Jwk, Host,
  Jwt, JwtHeader, Validation, lift, ok_or,
}

-- The key of the token's `kid`, or the first key.
unfoldable pub select_key : Jwt → List Jwk → Option Str → Outcome OidcError Jwk
select_key jwt jwks (some kid) =
    ok_or (id_token_decode (ascii "no JWK with kid \"" ++ kid ++ ascii "\"")) (jwt.find jwks kid)
select_key jwt jwks none = ok_or (id_token_decode (ascii "JWKS is empty")) (first jwks)

unfoldable pub validation_for : OidcClient → JwtHeader → Validation
validation_for client header = record {
  alg = header.alg;
  issuer = client.endpoints.issuer;
  audience = client.client_id;
  required_spec_claims = ascii "sub" ∷ ascii "exp" ∷ ascii "iss" ∷ [];
  validate_exp = true;
}

module _ {W : Type 0} (host : Host W) (jwt : Jwt) (client : OidcClient) where
  unfoldable pub validate_id_token : (id_token : Str) → Exec W OidcError IdTokenClaims
  validate_id_token id_token = do
    header ← lift (from_result jwt_validation (jwt.decode_header id_token))
    body ← get_body host client.endpoints.jwks_uri
    jwks ← lift (from_result http (host.read_jwks body))
    jwk ← lift (select_key jwt jwks header.kid)
    decoding_key ← lift (from_result jwt_validation (jwt.decoding_key jwk))
    lift (
        from_result jwt_validation
          (jwt.decode id_token decoding_key (validation_for client header)))
