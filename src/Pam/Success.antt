-- ===== src/Pam/Success.antt =====
-- When the entry points of crates/pam_oidc let a user in.
use sssd_oidc.Prelude.{
  ℕ, ◌≡◌, refl, Option, none, some, inl, inr, Bool-cases, Option-cases, Sum-cases, ap, arith, ◌∙◌,
}
use mathlib.Core.Option.{some-injective}
use sssd_oidc.Text.{Str, ascii, str_eq, str_eq_iff}
use sssd_oidc.Outcome.{Outcome, ok, err, panic}
use sssd_oidc.Model.{User}
use sssd_oidc.Database.{Engine}
use sssd_oidc.Scim.{Http}
use sssd_oidc.Service.{Service, ServiceError, lookup_user_by_name}
use sssd_oidc.Oidc.{OidcError, OidcClient, TokenResponse, IdTokenClaims, Host, Jwt}
use sssd_oidc.Oidc.Flow.{authenticate_device_flow}
use sssd_oidc.Oidc.Tokens.{validate_id_token}
use sssd_oidc.Pam.{
  code, pam_success, PamHandle, PamState, get_pam_user, with_display, subject_exit, verify_subject,
  verify_claims, after_flow, authenticate_impl,
}

module _ {W : Type 0} (engine : Engine) (murmur3_32 : Str → ℕ → Option ℕ) (server : Http)
    (jwt : Jwt) (host : Host W) (pamh : PamHandle W) where
  -- The subject is the user's name, or the external id of the user that the service finds.
  pub data IsSubjectOf (username sub : Str) (service : Option Service) : Type 0 where
    named : sub ≡ username → IsSubjectOf username sub service
    found :
        (svc : Service) (user : User)
        → service ≡ some svc
        → (lookup_user_by_name engine murmur3_32 server username svc).0 ≡ ok (some user)
        → user.external_id ≡ sub
        → IsSubjectOf username sub service

  subject_exit-success :
      (sub : Str) (r : Outcome ServiceError (Option User))
      → subject_exit engine murmur3_32 server jwt host pamh sub r ≡ code pam_success
      → (user : User) × (r ≡ ok (some user)) × (user.external_id ≡ sub)
  unfolding subject_exit
  subject_exit-success sub (ok none) h = absurd (ground arith)
  subject_exit-success sub (err e) h = absurd (ground arith)
  subject_exit-success sub panic h = cc
  subject_exit-success sub (ok (some user)) h = elim (Bool-cases (str_eq user.external_id sub)) [
    | inl e ↦ (user, refl, (str_eq_iff _ _).0 e)
    | inr e ↦ absurd (ground arith)
  ]

  verify_subject-success :
      (username sub : Str) (state state' : PamState W)
      → verify_subject engine murmur3_32 server jwt host pamh username sub state
        ≡ (code pam_success, state')
      → IsSubjectOf username sub state.service
  unfolding verify_subject
  verify_subject-success username sub state state' h = elim (Bool-cases (str_eq sub username)) [
    | inl e ↦ named ((str_eq_iff _ _).0 e)
    | inr e ↦ elim (Option-cases state.service) [
      | inl gone ↦
          absurd (let f = ap (λ r. r.0) (rw (e, verify_subject, gone) at h) in ground arith)
      | inr (svc, here) ↦
          let (user, r, same) =
            subject_exit-success sub _ (ap (λ r. r.0) (rw (e, verify_subject, here) at h)) in
          found svc user here r same
    ]
  ]

  verify_claims-success :
      (username : Str) (r : Outcome OidcError IdTokenClaims) (state state' : PamState W)
      → verify_claims engine murmur3_32 server jwt host pamh username r state
        ≡ (code pam_success, state')
      → (claims : IdTokenClaims) × (r ≡ ok claims) × IsSubjectOf username claims.sub state.service
  unfolding verify_claims
  verify_claims-success username (ok claims) state state' h =
      (claims, refl, verify_subject-success username claims.sub state state' h)
  verify_claims-success username (err e) state state' h =
      absurd (let f = ap (λ r. r.0) h in ground arith)
  verify_claims-success username panic state state' h = cc

  -- A login: the device flow gave a token, its ID token was validated to claims, and their subject is
  -- the user's.
  pub record Login (fuel : ℕ) (client : OidcClient) (state : PamState W) : Type 0 where
    pub username : Str
    pub token : TokenResponse
    pub id_token : Str
    pub claims : IdTokenClaims
    pub polled : W
    pub validated : W
    pub asked : get_pam_user pamh ≡ inr username
    pub flow :
        authenticate_device_flow (with_display pamh host) client fuel (ascii "openid") state.world
        ≡ some (ok token, polled)
    pub carried : token.id_token ≡ some id_token
    pub valid : validate_id_token host jwt client id_token polled ≡ (ok claims, validated)
    pub subject : IsSubjectOf username claims.sub state.service

  after_flow-success :
      (client : OidcClient) (username : Str) (r : Outcome OidcError TokenResponse)
      (state state' : PamState W)
      → after_flow engine murmur3_32 server jwt host pamh client username r state
        ≡ (code pam_success, state')
      → (token : TokenResponse) × (id_token : Str) × (claims : IdTokenClaims) × (w : W) × (r
          ≡ ok token)
        × (token.id_token ≡ some id_token)
        × (validate_id_token host jwt client id_token state.world ≡ (ok claims, w))
        × IsSubjectOf username claims.sub state.service
  unfolding after_flow
  after_flow-success client username (err e) state state' h =
      absurd (let f = ap (λ r. r.0) h in ground arith)
  after_flow-success client username panic state state' h = cc
  after_flow-success client username (ok token) state state' h =
      elim (Option-cases token.id_token) [
        | inl missing ↦
            absurd (let f = ap (λ r. r.0) (rw (missing, after_flow) at h) in ground arith)
        | inr (id_token, carried) ↦
            let (claims, e, subject) =
              verify_claims-success username _ _ _ (rw (carried, after_flow) at h) in
            (
              token,
              id_token,
              claims,
              _,
              refl,
              carried,
              (λ i. (e i, (validate_id_token host jwt client id_token state.world).1)),
              subject,
            )
      ]

  -- `pam_sm_authenticate` succeeds only for a login: the device flow of the OIDC client returned a
  -- token, `validate_id_token` accepted its ID token, and the subject of the claims is the PAM user's
  -- name or the external id of the user that the service finds under that name.
  pub authenticate_impl-success :
      (fuel : ℕ) (oidc_client : Option OidcClient) (state state' : PamState W)
      → authenticate_impl engine murmur3_32 server jwt host pamh fuel oidc_client state
        ≡ some (code pam_success, state')
      → (client : OidcClient) × (oidc_client ≡ some client) × Login fuel client state
  unfolding authenticate_impl
  authenticate_impl-success fuel none state state' h = elim (Sum-cases (get_pam_user pamh)) [
    | inl (ret, e) ↦ absurd (
        let f = ap (λ r. r.0) (some-injective _ _ (rw (e, authenticate_impl) at h)) in ground arith)
    | inr (username, e) ↦ absurd (
        let f = ap (λ r. r.0) (some-injective _ _ (rw (e, authenticate_impl) at h)) in ground arith)
  ]
  authenticate_impl-success fuel (some client) state state' h =
      elim (Sum-cases (get_pam_user pamh)) [
        | inl (ret, e) ↦ absurd (
            let f = ap (λ r. r.0) (some-injective _ _ (rw (e, authenticate_impl) at h)) in
            ground arith)
        | inr (username, asked) ↦
            elim (Option-cases (
              authenticate_device_flow (with_display pamh host) client fuel (ascii "openid")
                state.world)) [
                  | inl e ↦ cc (rw (asked, authenticate_impl, e) at h)
                  | inr ((result, polled), e) ↦
                      let (token, id_token, claims, validated, returned, carried, valid, subject) =
                        after_flow-success client username result (record state { world = polled })
                          state' (some-injective _ _ (rw (asked, authenticate_impl, e) at h)) in
                      (
                        client,
                        refl,
                        record {
                          username = username;
                          token = token;
                          id_token = id_token;
                          claims = claims;
                          polled = polled;
                          validated = validated;
                          asked = asked;
                          flow = e ∙ ap (λ r. some (r, polled)) returned;
                          carried = carried;
                          valid = valid;
                          subject = subject;
                        },
                      )
                ]
      ]
