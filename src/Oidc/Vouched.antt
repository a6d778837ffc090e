-- ===== src/Oidc/Vouched.antt =====
-- What an ID token that `validate_id_token` of src/oidc.rs accepts is vouched for by.
use sssd_oidc.Prelude.{
  ◌≡◌, refl, ap, true, List, [], ◌∷◌, Option, none, some, inl, inr, any, first, Some,
}
use sssd_oidc.Text.{Str, ascii, str_eq}
use sssd_oidc.Outcome.{ok, from_result}
use sssd_oidc.Exec.Success.{bind-ok, from_result-ok}
use sssd_oidc.Oidc.{
  http, get_body, jwt_validation, OidcClient, IdTokenClaims, Jwk, Host, Jwt, JwtHeader, Validation,
  lift, ok_or,
}
use sssd_oidc.Oidc.Tokens.{select_key, validation_for, validate_id_token}

-- What jsonwebtoken documents: `find` gives a key of the set that has the key id, and `decode` checks
-- the signature with the key, which makes the token `IsSigned`, and the issuer if the claim "iss" is
-- required.
pub record IsDocumented (jwt : Jwt) (IsSigned : (id_token key : Str) → Type 0) : Type 0 where
  pub found :
      (jwks : List Jwk) (kid : Str) (jwk : Jwk)
      → jwt.find jwks kid ≡ some jwk
      → Some (λ k. k ≡ jwk) jwks × (jwk.key_id ≡ some kid)
  pub signed :
      (id_token key : Str) (validation : Validation) (claims : IdTokenClaims)
      → jwt.decode id_token key validation ≡ inr claims
      → IsSigned id_token key
  pub issued :
      (id_token key : Str) (validation : Validation) (claims : IdTokenClaims)
      → jwt.decode id_token key validation ≡ inr claims
      → any (str_eq (ascii "iss")) validation.required_spec_claims ≡ true
      → claims.iss ≡ validation.issuer

-- The key that the token's header names, or the first one.
abbrev pub IsNamed : Option Str → List Jwk → Jwk → Type 0
IsNamed (some kid) jwks jwk = jwk.key_id ≡ some kid
IsNamed none jwks jwk = first jwks ≡ some jwk

ok_or-ok : {E A : Type 0} (e : E) (o : Option A) {a : A} → ok_or e o ≡ ok a → o ≡ some a
ok_or-ok e none h = cc
ok_or-ok e (some a) h = cc

first-Some : (jwks : List Jwk) (jwk : Jwk) → first jwks ≡ some jwk → Some (λ k. k ≡ jwk) jwks
first-Some [] jwk h = cc
first-Some (k ∷ jwks) jwk h = inl (cc)

-- The key that is selected is one of the set.
select_key-IsNamed :
    (jwt : Jwt) (IsSigned : (id_token key : Str) → Type 0) (documented : IsDocumented jwt IsSigned)
    (jwks : List Jwk) (kid : Option Str) (jwk : Jwk)
    → select_key jwt jwks kid ≡ ok jwk
    → Some (λ k. k ≡ jwk) jwks × IsNamed kid jwks jwk
unfolding select_key
select_key-IsNamed jwt IsSigned documented jwks (some kid) jwk h =
    documented.found jwks kid jwk (ok_or-ok _ (jwt.find jwks kid) h)
select_key-IsNamed jwt IsSigned documented jwks none jwk h =
    let here = ok_or-ok _ (first jwks) h in (first-Some jwks jwk here, here)

module _ {W : Type 0} (host : Host W) (jwt : Jwt) (IsSigned : (id_token key : Str) → Type 0)
    (documented : IsDocumented jwt IsSigned) (client : OidcClient) where
  -- The token is signed with one of the keys that were then read from the client's key set endpoint,
  -- one with its `kid` if it names one and else the first, and the claims name the client's issuer.
  pub record IsVouched (id_token : Str) (w : W) (claims : IdTokenClaims) : Type 0 where
    pub header : JwtHeader
    pub body : Str
    pub jwks : List Jwk
    pub jwk : Jwk
    pub key : Str
    pub headed : jwt.decode_header id_token ≡ inr header
    pub fetched : (get_body host client.endpoints.jwks_uri w).0 ≡ ok body
    pub key_set : host.read_jwks body ≡ inr jwks
    pub listed : Some (λ k. k ≡ jwk) jwks
    pub named : IsNamed header.kid jwks jwk
    pub made : jwt.decoding_key jwk ≡ inr key
    pub signed : IsSigned id_token key
    pub issued : claims.iss ≡ client.endpoints.issuer

  pub validate_id_token-IsVouched :
      (id_token : Str) (w w' : W) (claims : IdTokenClaims)
      → validate_id_token host jwt client id_token w ≡ (ok claims, w')
      → IsVouched id_token w claims
  unfolding validate_id_token validation_for any str_eq
  validate_id_token-IsVouched id_token w w' claims h =
      let (header, e₁, h₁) =
        bind-ok (lift (from_result jwt_validation (jwt.decode_header id_token))) _ w h in
      let (body, e₂, h₂) = bind-ok (get_body host client.endpoints.jwks_uri) _ w h₁ in
      let (jwks, e₃, h₃) = bind-ok (lift (from_result http (host.read_jwks body))) _ _ h₂ in
      let (jwk, e₄, h₄) = bind-ok (lift (select_key jwt jwks header.kid)) _ _ h₃ in
      let (key, e₅, h₅) =
        bind-ok (lift (from_result jwt_validation (jwt.decoding_key jwk))) _ _ h₄ in
      let decoded : jwt.decode id_token key (validation_for client header) ≡ inr claims =
        from_result-ok jwt_validation _ (ap (λ r. r.0) h₅) in
      let (listed, named) =
        select_key-IsNamed jwt IsSigned documented jwks header.kid jwk (ap (λ r. r.0) e₄) in
      record {
        header = header;
        body = body;
        jwks = jwks;
        jwk = jwk;
        key = key;
        headed = from_result-ok jwt_validation _ (ap (λ r. r.0) e₁);
        fetched = ap (λ r. r.0) e₂;
        key_set = from_result-ok http _ (ap (λ r. r.0) e₃);
        listed = listed;
        named = named;
        made = from_result-ok jwt_validation _ (ap (λ r. r.0) e₅);
        signed = documented.signed id_token key (validation_for client header) claims decoded;
        issued = documented.issued id_token key (validation_for client header) claims decoded refl;
      }
