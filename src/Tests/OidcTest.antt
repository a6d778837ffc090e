-- ===== src/Tests/OidcTest.antt =====
-- Runs of src/oidc.rs.
use sssd_oidc.Prelude.{ℕ, ◌+◌, ◌<◌, ◌≤◌, ◌≡◌, ◌↔◌, refl, ap, none, some, arith}
use sssd_oidc.Text.{ascii, starts_with, trim_end_matches, str_eq}
use sssd_oidc.Outcome.{Outcome, ok}
use sssd_oidc.Oidc.{OidcError, DeviceAuthResponse, TokenResponse, nanos, get_body, post}
use sssd_oidc.Oidc.Discovery.{require_secure, checked_client, client_of_document}
use sssd_oidc.Oidc.Flow.{
  discover_with_options, discover, request_device_code, token_of_response, poll_for_token,
  after_poll, poll_loop, flow_from, authenticate_device_flow,
}
use sssd_oidc.Oidc.Polling.{authenticate_device_flow-some, authenticate_device_flow-token}
use sssd_oidc.Oidc.Rounds.{Rounds, poll_loop-Rounds_iff}
use sssd_oidc.Tests.Provider.{host, client, token, device_auth}

given_code :
    (given : DeviceAuthResponse) (w : ℕ)
    → request_device_code host client (ascii "openid") 0 ≡ (ok given, w)
    → given.expires_in < 61
unfolding request_device_code post
given_code given w h = let e : device_auth ≡ given = cc (ap (λ r. r.0) h) in rw (← e) (omega arith)

authenticate_device_flow-some_example :
    (r : Outcome OidcError TokenResponse × ℕ) × (authenticate_device_flow host client 61
        (ascii "openid")
        0
      ≡ some r)
authenticate_device_flow-some_example =
    authenticate_device_flow-some host client (ascii "openid") 61 0 given_code

flow_run : authenticate_device_flow host client 1 (ascii "openid") 0 ≡ some (ok token, nanos 5)
unfolding authenticate_device_flow flow_from request_device_code poll_loop poll_for_token
    token_of_response after_poll post
flow_run = refl

authenticate_device_flow-token_example :
    (given_auth : DeviceAuthResponse) × (given : ℕ) × (awake : ℕ) × (request_device_code host client
        (ascii "openid")
        0
      ≡ (ok given_auth, given))
    × (awake < given + nanos given_auth.expires_in)
    × (poll_for_token host client given_auth.device_code awake ≡ (ok token, nanos 5))
authenticate_device_flow-token_example =
    authenticate_device_flow-token host client (ascii "openid") 1 0 (nanos 5) token flow_run

discovered : discover host (ascii "https://idp") (ascii "c") none 0 ≡ (ok client, 0)
unfolding discover discover_with_options get_body client_of_document checked_client require_secure
    trim_end_matches str_eq starts_with
discovered = refl

poll_loop-Rounds_iff_example :
    (poll_loop host client 1 (ascii "d") (nanos 60) 5 0 ≡ some (ok token, nanos 5)) ↔ (
      (rounds : ℕ) × (rounds ≤ 1)
      × Rounds host client (ascii "d") (nanos 60) token (nanos 5) rounds 5 0)
poll_loop-Rounds_iff_example =
    poll_loop-Rounds_iff host client (ascii "d") (nanos 60) token (nanos 5) 1 5 0
