-- ===== src/Pam.antt =====
-- crates/pam_oidc: the PAM entry points, on Linux.
-- libpam is taken as parameters: what `pam_get_user` answers, the conversation item and its function,
-- the check of `CStr::to_str`. The OIDC client and the service are what `get_oidc_client` and
-- `get_service` return; a poisoned mutex is recovered, so the service is used all the same.
pub mod Success
pub mod Issuer
use sssd_oidc.Prelude.{
  ℕ, Bool, true, false, not, ◌&&◌, ◌||◌, List, [], ◌∷◌, ◌++◌, Option, none, some, ◌==◌,
  if◌then◌else◌, any, ◌⊎◌, inl, inr,
}
use sssd_oidc.Text.{Str, ascii, str_eq}
use sssd_oidc.Outcome.{Outcome, ok, err, panic}
use sssd_oidc.Model.{User}
use sssd_oidc.Database.{Engine}
use sssd_oidc.Scim.{Http}
use sssd_oidc.Service.{Service, ServiceError, lookup_user_by_name, check_user_active}
use sssd_oidc.Oidc.{OidcError, OidcClient, TokenResponse, IdTokenClaims, Host, Jwt}
use sssd_oidc.Oidc.Flow.{authenticate_device_flow}
use sssd_oidc.Oidc.Tokens.{validate_id_token}

abbrev pub pam_success : ℕ
pam_success = 0

abbrev pub pam_perm_denied : ℕ
pam_perm_denied = 6

abbrev pub pam_auth_err : ℕ
pam_auth_err = 7

abbrev pub pam_authinfo_unavail : ℕ
pam_authinfo_unavail = 9

abbrev pub pam_authtok_err : ℕ
pam_authtok_err = 20

-- How an entry point ends: with a code, or by a panic, which cannot leave an `extern "C"` function
-- and aborts the process.
pub data Exit : Type 0 where
  code : ℕ → Exit
  abort : Exit

-- What the code uses of libpam: `pam_get_user` gives a code and perhaps a name, `pam_get_item` a code
-- and perhaps a conversation, which may lack its function.
pub record PamHandle (W : Type 0) : Type 0 where
  pub pam_get_user : ℕ × Option Str
  pub to_str : Str → Option Str
  pub pam_get_item : ℕ × Option (Option (Str → W → ℕ × W))

pub record PamState (W : Type 0) : Type 0 where
  pub world : W
  pub service : Option Service

module _ {W : Type 0} (pamh : PamHandle W) where
  unfoldable pub get_pam_user : ℕ ⊎ Str
  get_pam_user =
      let (ret, user_ptr) = pamh.pam_get_user in
      elim user_ptr [
        | none ↦ inl ret
        | some user ↦
            let read : ℕ ⊎ Str = elim (pamh.to_str user) [
              | some name ↦ inr name
              | none ↦ inl ret
            ] in
            if not (ret == pam_success) then inl ret else read
      ]

  unfoldable pub get_pam_conv : Option (Option (Str → W → ℕ × W))
  get_pam_conv =
      let (ret, item) = pamh.pam_get_item in if not (ret == pam_success) then none else item

  -- A message with a NUL byte is no C string, and is not shown.
  unfoldable pub pam_info : (msg : Str) → W → ℕ × W
  unfolding get_pam_conv
  pam_info msg w = elim get_pam_conv [
    | none ↦ (pam_success, w)
    | some none ↦ (pam_success, w)
    | some (some conv) ↦ if any (λ c. c == 0) msg then (pam_success, w) else conv msg w
  ]

  -- The closure given to the device flow.
  abbrev pub instructions : (user_code verification_uri : Str) → Str
  instructions user_code verification_uri =
      ascii "To sign in, visit: "
      ++ verification_uri
      ++ 10 ∷ ascii "Enter code: "
      ++ user_code
      ++ 10 ∷ ascii "Waiting for authentication..."

  abbrev pub with_display : Host W → Host W
  with_display host = record host {
    display =
        λ user_code verification_uri w. (pam_info (instructions user_code verification_uri) w).1;
  }

module _ {W : Type 0} (engine : Engine) (murmur3_32 : Str → ℕ → Option ℕ) (server : Http)
    (jwt : Jwt) (host : Host W) (pamh : PamHandle W) where
  -- The `match` on the user that the service finds.
  unfoldable pub subject_exit : (sub : Str) → Outcome ServiceError (Option User) → Exit
  subject_exit sub (ok (some user)) =
      if str_eq user.external_id sub then code pam_success else code pam_auth_err
  subject_exit sub (ok none) = code pam_auth_err
  subject_exit sub (err e) = code pam_auth_err
  subject_exit sub panic = abort

  -- The check of the subject: directly, or through the service.
  unfoldable pub verify_subject : (username sub : Str) → PamState W → Exit × PamState W
  unfolding subject_exit
  verify_subject username sub state =
      let looked_up : Exit × PamState W = elim state.service [
        | none ↦ (code pam_auth_err, state)
        | some svc ↦
            let (found, svc') = lookup_user_by_name engine murmur3_32 server username svc in
            (subject_exit sub found, record state { service = some svc' })
      ] in
      if str_eq sub username then (code pam_success, state) else looked_up

  -- From the validation of the ID token on.
  unfoldable pub verify_claims :
      (username : Str) → Outcome OidcError IdTokenClaims → PamState W → Exit × PamState W
  verify_claims username (ok claims) state = verify_subject username claims.sub state
  verify_claims username (err e) state = (code pam_auth_err, state)
  verify_claims username panic state = (abort, state)

  -- The `match` on the result of the device flow.
  unfoldable pub after_flow :
      OidcClient
      → (username : Str) → Outcome OidcError TokenResponse
      → PamState W
      → Exit × PamState W
  after_flow client username (err e) state = (code pam_auth_err, state)
  after_flow client username panic state = (abort, state)
  after_flow client username (ok token) state = elim token.id_token [
    | none ↦ (code pam_auth_err, state)
    | some id_token ↦
        let (claims, w) = validate_id_token host jwt client id_token state.world in
        verify_claims username claims (record state { world = w })
  ]

  -- `none` only if the fuel of the polling loop runs out.
  unfoldable pub authenticate_impl :
      (fuel : ℕ) → Option OidcClient → PamState W → Option (Exit × PamState W)
  authenticate_impl fuel oidc_client state = elim (get_pam_user pamh) [
    | inl ret ↦ some (code pam_auth_err, state)
    | inr username ↦ elim oidc_client [
      | none ↦ some (code pam_authinfo_unavail, state)
      | some client ↦
          elim (authenticate_device_flow (with_display pamh host) client fuel (ascii "openid")
            state.world) [
              | none ↦ none
              | some (result, w) ↦
                  some (after_flow client username result (record state { world = w }))
            ]
    ]
  ]

  abbrev pub pam_sm_setcred : Exit
  pam_sm_setcred = code pam_success

  unfoldable pub chauthtok_impl : Option OidcClient → W → Exit × W
  chauthtok_impl none w = (code pam_authtok_err, w)
  chauthtok_impl (some client) w =
      let msg =
        ascii "Password changes are not supported via PAM for OIDC accounts."
        ++ 10 ∷ ascii "Please change your password at your identity provider:"
        ++ 10 ∷ ascii "  "
        ++ client.endpoints.issuer in
      (code pam_authtok_err, (pam_info pamh msg w).1)

  unfoldable pub active_exit : Outcome ServiceError Bool → Exit
  active_exit (ok true) = code pam_success
  active_exit (ok false) = code pam_perm_denied
  active_exit (err e) = code pam_authinfo_unavail
  active_exit panic = abort

  unfoldable pub acct_mgmt_impl : PamState W → Exit × PamState W
  unfolding active_exit
  acct_mgmt_impl state = elim (get_pam_user pamh) [
    | inl ret ↦ (code pam_auth_err, state)
    | inr username ↦ elim state.service [
      | none ↦ (code pam_authinfo_unavail, state)
      | some svc ↦
          let (active, svc') = check_user_active engine murmur3_32 server username svc in
          (active_exit active, record state { service = some svc' })
    ]
  ]
