-- ===== src/Tests/Provider.antt =====
-- A concrete identity provider: it gives one device code, and a token at the first poll.
use sssd_oidc.Prelude.{
  ℕ, ◌+◌, Bool, false, [], ◌∷◌, none, some, inl, inr, arith, first, keep, if◌then◌else◌,
}
use sssd_oidc.Text.{Str, ascii, str_eq}
use sssd_oidc.Oidc.{
  Host, Jwk, Jwt, OidcClient, DeviceAuthResponse, TokenResponse, DiscoveryDocument, nanos,
}

abbrev pub device_auth : DeviceAuthResponse
device_auth = record {
  device_code = ascii "d";
  user_code = ascii "u";
  verification_uri = ascii "v";
  verification_uri_complete = none;
  expires_in = 60;
  interval = 1;
}

abbrev pub token : TokenResponse
token = record { access_token = []; id_token = some (ascii "t"); token_type = [] }

abbrev pub document : DiscoveryDocument
document = record {
  issuer = some (ascii "https://idp/");
  token_endpoint = some (ascii "https://idp/t");
  device_authorization_endpoint = some (ascii "https://idp/d");
  jwks_uri = some (ascii "https://idp/k");
}

-- The provider signs with the second of its keys.
abbrev pub other_key : Jwk
other_key = record { key_id = some (ascii "k0"); key = ascii "x" }

abbrev pub signing_key : Jwk
signing_key = record { key_id = some (ascii "k1"); key = ascii "t" }

abbrev pub has_kid : Str → Jwk → Bool
has_kid kid jwk = elim jwk.key_id [ some k ↦ str_eq k kid | none ↦ false ]

-- The state is the time in nanoseconds.
abbrev pub host : Host ℕ
host = record {
  now = λ w. w;
  max_instant = nanos 1_000_000;
  sleep = λ secs w. w + nanos secs;
  display = λ user_code verification_uri w. w;
  get = λ url w. (inr [], w);
  send_form = λ as_error url form w. (inr (record { status = 200; body = inr [] }), w);
  read_discovery = λ body. inr document;
  read_device_auth = λ body. inr device_auth;
  read_token = λ body. inr token;
  read_token_error = λ body. none;
  read_jwks = λ body. inr (other_key ∷ signing_key ∷ []);
  sleep-now = λ secs w. omega arith;
  send_form-now = λ as_error url form w. omega arith;
  max_instant_lt = omega arith;
}

abbrev pub client : OidcClient
client = record {
  endpoints = record {
    device_authorization_endpoint = ascii "https://idp/d";
    token_endpoint = ascii "https://idp/t";
    issuer = ascii "https://idp/";
    jwks_uri = ascii "https://idp/k";
  };
  client_id = ascii "c";
  client_secret = none;
}

-- A token is its key: the signature is right if they are equal.
abbrev pub jwt : Jwt
jwt = record {
  decode_header = λ id_token. inr (record { kid = some (ascii "k1"); alg = 0 });
  find = λ keys kid. first (keep (has_kid kid) keys);
  decoding_key = λ jwk. inr jwk.key;
  decode = λ id_token key validation.
      if str_eq id_token key
      then inr (record {
        sub = ascii "alice";
        iss = validation.issuer;
        aud = validation.audience;
        exp = 0;
        iat = none;
      })
      else inl 1;
}
