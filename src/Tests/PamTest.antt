-- ===== src/Tests/PamTest.antt =====
-- Runs of crates/pam_oidc.
use sssd_oidc.Prelude.{
  ℕ, ◌≡◌, refl, sym, ap, subst, ◌∙◌, true, false, List, [], ◌∷◌, ◌⊎◌, inl, inr, Option, none, some,
  any, first, keep, Some, Bool-cases,
}
use sssd_oidc.Text.{Str, ascii, str_eq, str_eq_iff}
use sssd_oidc.Oidc.{OidcClient, Jwk, IdTokenClaims, post, get_body, nanos}
use sssd_oidc.Oidc.Flow.{
  request_device_code, token_of_response, poll_for_token, after_poll, poll_loop, flow_from,
  authenticate_device_flow,
}
use sssd_oidc.Oidc.Tokens.{validate_id_token, select_key, validation_for}
use sssd_oidc.Pam.{
  code, PamHandle, PamState, get_pam_user, get_pam_conv, pam_info, verify_subject, verify_claims,
  after_flow, authenticate_impl, pam_success,
}
use sssd_oidc.Pam.Success.{Login, authenticate_impl-success}
use sssd_oidc.Pam.Issuer.{Trusted, authenticate_impl-Trusted}
use sssd_oidc.Oidc.Vouched.{IsDocumented}
use sssd_oidc.Startup.{get_oidc_client}
use sssd_oidc.Tests.Disk.{disk, from_str, machine}
use sssd_oidc.Tests.StartupTest.{discovered}
use sssd_oidc.Tests.Fixtures.{engine_at, hash_7}
use sssd_oidc.Tests.Provider.{host, client, jwt, has_kid}
use sssd_oidc.Tests.Server.{server}

abbrev pamh : PamHandle ℕ
pamh = record {
  pam_get_user = (0, some (ascii "alice"));
  to_str = λ s. some s;
  pam_get_item = (0, none);
}

abbrev before : PamState ℕ
before = record { world = 0; service = none }

abbrev after : PamState ℕ
after = record { world = nanos 5; service = none }

login_run :
    authenticate_impl (engine_at 100) hash_7 server jwt host pamh 1 (some client) before
    ≡ some (code pam_success, after)
unfolding authenticate_impl get_pam_user get_pam_conv pam_info authenticate_device_flow flow_from
    request_device_code poll_loop poll_for_token token_of_response after_poll post get_body
    after_flow verify_claims verify_subject validate_id_token select_key validation_for str_eq any
    keep
login_run = refl

authenticate_impl-success_example :
    (c : OidcClient) × (some client ≡ some c)
    × Login (engine_at 100) hash_7 server jwt host pamh 1 c before
authenticate_impl-success_example =
    authenticate_impl-success (engine_at 100) hash_7 server jwt host pamh 1 (some client) before
      after login_run

abbrev given_client : Option OidcClient
given_client = (get_oidc_client disk from_str host none (machine, 0)).0

abbrev issuer_of : ℕ ⊎ IdTokenClaims → Str
issuer_of (inl e) = []
issuer_of (inr claims) = claims.iss

abbrev IsKey : (id_token key : Str) → Type 0
IsKey id_token key = id_token ≡ key

find-Some :
    (jwks : List Jwk) (kid : Str) (jwk : Jwk)
    → first (keep (has_kid kid) jwks) ≡ some jwk
    → Some (λ k. k ≡ jwk) jwks × (has_kid kid jwk ≡ true)
unfolding keep
find-Some [] kid jwk h = cc
find-Some (k ∷ jwks) kid jwk h = elim (Bool-cases (has_kid kid k)) [
  | inl e ↦
      let same : k ≡ jwk = cc (rw e at h) in (inl same, subst (λ x. has_kid kid x ≡ true) same e)
  | inr e ↦ let (listed, named) = find-Some jwks kid jwk (rw e at h) in (inr listed, named)
]

named_kid :
    (held : Option Str) (kid : Str)
    → (elim held [ some k ↦ str_eq k kid | none ↦ false ]) ≡ true
    → held ≡ some kid
named_kid none kid h = cc
named_kid (some k) kid h = ap some ((str_eq_iff k kid).0 h)

jwt-IsDocumented : IsDocumented jwt IsKey
jwt-IsDocumented = record {
  found = λ jwks kid jwk h.
      let (listed, named) = find-Some jwks kid jwk h in (listed, named_kid jwk.key_id kid named);
  signed = λ id_token key validation claims h. elim (Bool-cases (str_eq id_token key)) [
    | inl e ↦ (str_eq_iff id_token key).0 e
    | inr e ↦ cc (rw e at h)
  ];
  issued = λ id_token key validation claims h required. elim (Bool-cases (str_eq id_token key)) [
    | inl e ↦ ap issuer_of (sym (rw e at h))
    | inr e ↦ cc (rw e at h)
  ];
}

trusted_run :
    authenticate_impl (engine_at 100) hash_7 server jwt host pamh 1 given_client before
    ≡ some (code pam_success, after)
trusted_run =
    ap (λ c. authenticate_impl (engine_at 100) hash_7 server jwt host pamh 1 c before) discovered
    ∙ login_run

authenticate_impl-Trusted_example :
    Trusted disk from_str
      (engine_at 100)
      hash_7
      server
      jwt
      IsKey
      jwt-IsDocumented
      host
      pamh
      1
      machine
      before
authenticate_impl-Trusted_example =
    authenticate_impl-Trusted disk from_str (engine_at 100) hash_7 server jwt IsKey jwt-IsDocumented
      host pamh 1 machine 0 before after trusted_run
