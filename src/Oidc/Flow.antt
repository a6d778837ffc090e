-- ===== src/Oidc/Flow.antt =====
-- src/oidc.rs: discovery, the device code, the polling for a token.
use sssd_oidc.Prelude.{
  ℕ, zero, suc, ◌+◌, ◌%◌, ◌^◌, Bool, true, false, ◌&&◌, List, [], ◌∷◌, ◌++◌, Option, none, some,
  ltb, leb, if◌then◌else◌, ◌⊎◌, inl, inr,
}
use sssd_oidc.Text.{Str, ascii, str_eq, trim_end_matches}
use sssd_oidc.Outcome.{Outcome, ok, err, panic, from_result}
use sssd_oidc.Exec.{Exec, ◌>>=◌}
use sssd_oidc.Oidc.Discovery.{client_of_document}
use sssd_oidc.Oidc.{
  OidcError, http, get_body, post, authorization_pending, slow_down, expired_token, token_error,
  OidcClient, DeviceAuthResponse, TokenResponse, Response, Host, nanos, lift,
}

-- `max` on u64
abbrev pub max : ℕ → ℕ → ℕ
max a b = if ltb a b then b else a

abbrev pub min_poll_interval_secs : ℕ
min_poll_interval_secs = 5

-- `form.push(("client_secret", …))` where there is one
abbrev pub push_secret : Option Str → List (Str × Str) → List (Str × Str)
push_secret none form = form
push_secret (some secret) form = form ++ (ascii "client_secret", secret) ∷ []

-- The error that the body of a refusal names.
unfoldable pub refusal : (body : Str) → Option Str → OidcError
refusal body none = token_error body
refusal body (some error) =
    if str_eq error (ascii "authorization_pending")
    then authorization_pending
    else if str_eq error (ascii "slow_down")
    then slow_down
    else if str_eq error (ascii "expired_token")
    then expired_token
    else token_error error

module _ {W : Type 0} (host : Host W) where
  unfoldable pub discover_with_options :
      (issuer_url client_id : Str)
      → Option Str
      → (require_https : Bool) → Exec W OidcError OidcClient
  discover_with_options issuer_url client_id client_secret require_https = do
    let canonical_issuer = trim_end_matches issuer_url b'/'
    body ← get_body host (canonical_issuer ++ ascii "/.well-known/openid-configuration")
    doc ← lift (from_result http (host.read_discovery body))
    lift (client_of_document canonical_issuer client_id client_secret require_https doc)

  unfoldable pub discover : (issuer_url client_id : Str) → Option Str → Exec W OidcError OidcClient
  discover issuer_url client_id client_secret =
      discover_with_options issuer_url client_id client_secret true

  unfoldable pub discover_insecure :
      (issuer_url client_id : Str) → Option Str → Exec W OidcError OidcClient
  discover_insecure issuer_url client_id client_secret =
      discover_with_options issuer_url client_id client_secret false

  module _ (client : OidcClient) where
    unfoldable pub request_device_code : (scope : Str) → Exec W OidcError DeviceAuthResponse
    request_device_code scope = do
      let form =
          push_secret client.client_secret
            ((ascii "client_id", client.client_id) ∷ (ascii "scope", scope) ∷ [])
      response ← post host true client.endpoints.device_authorization_endpoint form
      body ← lift (from_result http response.body)
      lift (from_result http (host.read_device_auth body))

    -- What a response of the token endpoint means.
    unfoldable pub token_of_response : Response → Outcome OidcError TokenResponse
    unfolding refusal
    token_of_response response = elim response.body [
      | inl e ↦ err (http e)
      | inr body ↦
          if leb 200 response.status && ltb response.status 300
          then from_result http (host.read_token body)
          else err (refusal body (host.read_token_error body))
    ]

    unfoldable pub poll_for_token : (device_code : Str) → Exec W OidcError TokenResponse
    poll_for_token device_code = do
      let form = push_secret client.client_secret (
          (ascii "client_id", client.client_id)
          ∷ (ascii "grant_type", ascii "urn:ietf:params:oauth:grant-type:device_code")
          ∷ (ascii "device_code", device_code)
          ∷ [])
      response ← post host false client.endpoints.token_endpoint form
      lift (token_of_response response)

    -- How a round ends: with a result, or with the interval of the next round.
    unfoldable pub after_poll :
        (interval_secs : ℕ) → Outcome OidcError TokenResponse → Outcome OidcError TokenResponse ⊎ ℕ
    after_poll interval_secs (err authorization_pending) = inr interval_secs
    after_poll interval_secs (err slow_down) = inr ((interval_secs + 5) % 2 ^ 64)
    after_poll interval_secs result = inl result

    -- The loop; `none` if the fuel runs out.
    unfoldable pub poll_loop :
        (fuel : ℕ) (device_code : Str) (deadline interval_secs : ℕ)
        → W
        → Option (Outcome OidcError TokenResponse × W)
    unfolding after_poll
    poll_loop zero device_code deadline interval_secs w = none
    poll_loop (suc fuel) device_code deadline interval_secs w =
        let awake = host.sleep interval_secs w in
        let (answer, w') = poll_for_token device_code awake in
        let polled : Option (Outcome OidcError TokenResponse × W) =
          elim (after_poll interval_secs answer) [
            | inl result ↦ some (result, w')
            | inr interval' ↦ poll_loop fuel device_code deadline interval' w'
          ] in
        if leb deadline (host.now awake) then some (err expired_token, awake) else polled

    -- The flow from the answer of the device authorization endpoint on. `Instant + Duration` panics
    -- beyond the largest instant.
    unfoldable pub flow_from :
        (fuel : ℕ)
        → Outcome OidcError DeviceAuthResponse
        → W
        → Option (Outcome OidcError TokenResponse × W)
    flow_from fuel (err e) w = some (err e, w)
    flow_from fuel panic w = some (panic, w)
    flow_from fuel (ok device_auth) w =
        let shown = host.display device_auth.user_code device_auth.verification_uri w in
        let deadline = host.now shown + nanos device_auth.expires_in in
        let polled =
          poll_loop fuel device_auth.device_code deadline
            (max device_auth.interval min_poll_interval_secs) shown in
        if ltb host.max_instant deadline then some (panic, shown) else polled

    -- The whole flow, with the fuel of its loop.
    unfoldable pub authenticate_device_flow :
        (fuel : ℕ) (scope : Str) → W → Option (Outcome OidcError TokenResponse × W)
    unfolding flow_from
    authenticate_device_flow fuel scope w =
        let (answer, w') = request_device_code scope w in flow_from fuel answer w'
