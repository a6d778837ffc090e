-- ===== src/Oidc.antt =====
-- src/oidc.rs: discovery, the device authorization grant (RFC 8628) and the validation of ID tokens.
-- The clock, sleeping, HTTP (ureq) and JSON decoding (serde) are taken as a `Host` on a state `W` of
-- the outside world; the JWT library (jsonwebtoken) as a record `Jwt`. Time is in nanoseconds.
pub mod Discovery
pub mod Flow
pub mod Tokens
pub mod Loop
pub mod Polling
pub mod Rounds
pub mod Checks
pub mod Vouched
use sssd_oidc.Prelude.{
  ℕ, zero, suc, ◌+◌, ◌*◌, ◌%◌, ◌^◌, ◌≤◌, ◌<◌, Bool, true, false, not, ◌&&◌, List, [], ◌∷◌, ◌++◌,
  Option, none, some, ltb, leb, if◌then◌else◌, first, ◌⊎◌, inl, inr, ◌≡◌,
}
use sssd_oidc.Text.{Str, ascii, str_eq, starts_with, trim_end_matches}
use sssd_oidc.Outcome.{Outcome, ok, err, panic, from_result}
use sssd_oidc.Exec.{Exec, pure, reads, ◌>>=◌, ◌>>◌}
use sssd_oidc.Scim.{HttpError}

pub data OidcError : Type 0 where
  http : HttpError → OidcError
  io : ℕ → OidcError
  missing_field : Str → OidcError
  issuer_mismatch : (expected actual : Str) → OidcError
  insecure_endpoint : Str → OidcError
  authorization_pending slow_down expired_token : OidcError
  token_error : Str → OidcError
  missing_id_token : OidcError
  subject_mismatch : (token_sub expected : Str) → OidcError
  id_token_decode : Str → OidcError
  jwt_validation : ℕ → OidcError

pub record OidcEndpoints : Type 0 where
  pub device_authorization_endpoint : Str
  pub token_endpoint : Str
  pub issuer : Str
  pub jwks_uri : Str

pub record DeviceAuthResponse : Type 0 where
  pub device_code : Str
  pub user_code : Str
  pub verification_uri : Str
  pub verification_uri_complete : Option Str
  pub expires_in : ℕ
  pub interval : ℕ

pub record TokenResponse : Type 0 where
  pub access_token : Str
  pub id_token : Option Str
  pub token_type : Str

pub record OidcClient : Type 0 where
  pub endpoints : OidcEndpoints
  pub client_id : Str
  pub client_secret : Option Str

pub record DiscoveryDocument : Type 0 where
  pub issuer : Option Str
  pub token_endpoint : Option Str
  pub device_authorization_endpoint : Option Str
  pub jwks_uri : Option Str

pub record IdTokenClaims : Type 0 where
  pub sub : Str
  pub iss : Str
  pub aud : Str
  pub exp : ℕ
  pub iat : Option ℕ

-- A key of a JWK set.
pub record Jwk : Type 0 where
  pub key_id : Option Str
  pub key : Str

-- A response: its status, and its body if that can be read.
pub record Response : Type 0 where
  pub status : ℕ
  pub body : HttpError ⊎ Str

abbrev pub nanos : ℕ → ℕ
nanos secs = secs * 1_000_000_000

-- What the code uses of the outside world. Time does not run backwards, a sleep lasts as long as it
-- was asked to, and an `Instant` is below 2^63 seconds.
pub record Host (W : Type 0) : Type 0 where
  pub now : W → ℕ
  pub max_instant : ℕ
  pub sleep : (secs : ℕ) → W → W
  pub display : (user_code verification_uri : Str) → W → W
  pub get : (url : Str) → W → (HttpError ⊎ Str) × W
  pub send_form :
      (http_status_as_error : Bool) (url : Str) (form : List (Str × Str))
      → W
      → (HttpError ⊎ Response) × W
  pub read_discovery : Str → HttpError ⊎ DiscoveryDocument
  pub read_device_auth : Str → HttpError ⊎ DeviceAuthResponse
  pub read_token : Str → HttpError ⊎ TokenResponse
  pub read_token_error : Str → Option Str
  pub read_jwks : Str → HttpError ⊎ List Jwk
  pub sleep-now : (secs : ℕ) (w : W) → now w + nanos secs ≤ now (sleep secs w)
  pub send_form-now :
      (as_error : Bool) (url : Str) (form : List (Str × Str)) (w : W)
      → now w ≤ now (send_form as_error url form w).1
  pub max_instant_lt : max_instant < nanos (2 ^ 63)

pub record JwtHeader : Type 0 where
  pub kid : Option Str
  pub alg : ℕ

-- `Validation`, with the fields that the code sets.
pub record Validation : Type 0 where
  pub alg : ℕ
  pub issuer : Str
  pub audience : Str
  pub required_spec_claims : List Str
  pub validate_exp : Bool

pub record Jwt : Type 0 where
  pub decode_header : Str → ℕ ⊎ JwtHeader
  pub find : List Jwk → Str → Option Jwk
  pub decoding_key : Jwk → ℕ ⊎ Str
  pub decode : (id_token decoding_key : Str) → Validation → ℕ ⊎ IdTokenClaims

abbrev pub ok_or {ℓ κ} : {E : Type ℓ} {A : Type κ} → E → Option A → Outcome E A
ok_or e none = err e
ok_or e (some a) = ok a

-- A step whose outcome does not depend on the world.
abbrev pub lift : {W E A : Type 0} → Outcome E A → Exec W E A
lift r = reads λ _. r

module _ {W : Type 0} (host : Host W) where
  -- `.get(…).call()?`, with the body that is read from it.
  unfoldable pub get_body : (url : Str) → Exec W OidcError Str
  get_body url w = let (answer, w') = host.get url w in (from_result http answer, w')

  -- `.post(…).send_form(…)?`
  unfoldable pub post :
      (http_status_as_error : Bool) (url : Str) (form : List (Str × Str))
      → Exec W OidcError Response
  post http_status_as_error url form w =
      let (answer, w') = host.send_form http_status_as_error url form w in
      (from_result http answer, w')
