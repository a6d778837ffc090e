-- ===== src/Oidc/Polling.antt =====
-- The polling loop of src/oidc.rs ends, and what a token that it returns stands for.
use sssd_oidc.Prelude.{
  ℕ, zero, suc, ◌+◌, ◌%◌, ◌^◌, ◌≤◌, ◌<◌, ◌≡◌, refl, sym, ◌∙◌, false, some, ltb, leb, inl, inr,
  Bool-cases, arith,
}
use mathlib.Core.Option.{some-injective}
use sssd_oidc.Text.{Str}
use sssd_oidc.Outcome.{Outcome, ok, err, panic}
use sssd_oidc.Oidc.{OidcError, OidcClient, DeviceAuthResponse, TokenResponse, Host, nanos}
use sssd_oidc.Oidc.Loop.{
  after_poll-cases, poll_for_token-now, round_end, loop_expired, loop_ends, loop_continues,
}
use sssd_oidc.Oidc.Flow.{
  poll_for_token, poll_loop, request_device_code, flow_from, authenticate_device_flow, max,
  min_poll_interval_secs,
}

module _ {W : Type 0} (host : Host W) (client : OidcClient) (device_code : Str) where
  module _ (deadline : ℕ) where
    -- The round after one that did not end the loop.
    next_round :
        (fuel i i' : ℕ) (w : W)
        → leb deadline (host.now (host.sleep i w)) ≡ false
        → round_end host client device_code deadline fuel i w ≡ inr i'
        → ((r : Outcome OidcError TokenResponse × W) × (poll_loop host client fuel device_code
                deadline i'
                (poll_for_token host client device_code (host.sleep i w)).1
              ≡ some r))
        → (r : Outcome OidcError TokenResponse × W) × (poll_loop host client
              (suc fuel)
              device_code
              deadline
              i
              w
            ≡ some r)
    next_round fuel i i' w early e (r, ran) =
        (r, loop_continues host client device_code deadline fuel i i' w early e ∙ ran)

    -- With fuel for one round in each five seconds that are left, the loop ends by itself.
    loop-some :
        (fuel i : ℕ) (w : W)
        → 5 ≤ i
        → deadline ≤ host.max_instant
        → deadline ≤ host.now w + nanos fuel
        → (r : Outcome OidcError TokenResponse × W) × (poll_loop host client
              (suc fuel)
              device_code
              deadline
              i
              w
            ≡ some r)
    loop-some zero i w five fits near =
        let slept = host.sleep-now i w in
        (_, loop_expired host client device_code deadline zero i w (ground arith))
    loop-some (suc fuel) i w five fits near =
        let awake = host.sleep i w in
        let slept : host.now w + nanos i ≤ host.now awake = host.sleep-now i w in
        let polled = poll_for_token-now host client device_code awake in
        elim (Bool-cases (leb deadline (host.now awake))) [
          | inl late ↦ (_, loop_expired host client device_code deadline (suc fuel) i w late)
          | inr early ↦
              let near' : deadline
                  ≤ host.now (poll_for_token host client device_code awake).1 + nanos fuel =
                ground arith in
              elim (after_poll-cases host client i
                (poll_for_token host client device_code awake).0) [
                  | inl e ↦ (_, loop_ends host client device_code deadline (suc fuel) i w _ early e)
                  | inr (inl (_, e)) ↦
                      next_round (suc fuel) i i w early e (loop-some fuel i _ five fits near')
                  | inr (inr (_, e)) ↦
                      let bound = host.max_instant_lt in
                      let small : (i + 5) % 2 ^ 64 ≡ i + 5 = ground arith in
                      next_round (suc fuel) i ((i + 5) % 2 ^ 64) w early e
                        (loop-some fuel ((i + 5) % 2 ^ 64) _ (omega arith) fits near')
                ]
        ]

    -- A token that the loop returns was the answer to a poll made before the deadline.
    pub loop-token :
        (fuel i : ℕ) (w w' : W) (token : TokenResponse)
        → poll_loop host client fuel device_code deadline i w ≡ some (ok token, w')
        → (awake : W) × (host.now awake < deadline)
          × (poll_for_token host client device_code awake ≡ (ok token, w'))
    unfolding poll_loop
    loop-token zero i w w' token h = cc
    loop-token (suc fuel) i w w' token h =
        let awake = host.sleep i w in
        let answer = (poll_for_token host client device_code awake).0 in
        elim (Bool-cases (leb deadline (host.now awake))) [
          | inl late ↦ cc (loop_expired host client device_code deadline fuel i w late, h)
          | inr early ↦ elim (after_poll-cases host client i answer) [
            | inl e ↦
                let same =
                  some-injective _ _ (
                    sym (loop_ends host client device_code deadline fuel i w answer early e) ∙ h) in
                (awake, ground arith, same)
            | inr (inl (_, e)) ↦
                loop-token fuel i _ w' token
                  (sym (loop_continues host client device_code deadline fuel i i w early e) ∙ h)
            | inr (inr (_, e)) ↦
                loop-token fuel _ _ w' token
                  (sym (loop_continues host client device_code deadline fuel i _ w early e) ∙ h)
          ]
        ]

module _ {W : Type 0} (host : Host W) (client : OidcClient) where
  flow_from-some :
      (fuel : ℕ) (answer : Outcome OidcError DeviceAuthResponse) (w : W)
      → ((device_auth : DeviceAuthResponse)
          → answer ≡ ok device_auth
          → device_auth.expires_in < fuel)
      → (r : Outcome OidcError TokenResponse × W) × (flow_from host client fuel answer w ≡ some r)
  unfolding flow_from
  flow_from-some fuel (err e) w enough = (_, refl)
  flow_from-some fuel panic w enough = (_, refl)
  flow_from-some zero (ok device_auth) w enough = absurd (omega (arith, enough device_auth refl))
  flow_from-some (suc fuel) (ok device_auth) w enough =
      let shown = host.display device_auth.user_code device_auth.verification_uri w in
      let deadline = host.now shown + nanos device_auth.expires_in in
      let less = enough device_auth refl in
      elim (Bool-cases (ltb host.max_instant deadline)) [
        | inl beyond ↦ ((panic, shown), rw beyond)
        | inr within ↦
            let (r, ran) =
              loop-some host client device_auth.device_code deadline fuel
                (max device_auth.interval min_poll_interval_secs) shown (ground arith)
                (ground arith) (omega arith) in
            (r, rw within ran)
      ]

  flow_from-token :
      (fuel : ℕ) (answer : Outcome OidcError DeviceAuthResponse) (w w' : W) (token : TokenResponse)
      → flow_from host client fuel answer w ≡ some (ok token, w')
      → (device_auth : DeviceAuthResponse) × (awake : W) × (answer ≡ ok device_auth)
        × (host.now awake
            < host.now (host.display device_auth.user_code device_auth.verification_uri w)
              + nanos device_auth.expires_in)
        × (poll_for_token host client device_auth.device_code awake ≡ (ok token, w'))
  unfolding flow_from
  flow_from-token fuel (err e) w w' token h = cc
  flow_from-token fuel panic w w' token h = cc
  flow_from-token fuel (ok device_auth) w w' token h =
      let shown = host.display device_auth.user_code device_auth.verification_uri w in
      let deadline = host.now shown + nanos device_auth.expires_in in
      elim (Bool-cases (ltb host.max_instant deadline)) [
        | inl beyond ↦ cc (rw beyond at h)
        | inr within ↦
            let (awake, early, polled) =
              loop-token host client device_auth.device_code deadline fuel
                (max device_auth.interval min_poll_interval_secs) shown w' token (rw within at h) in
            (device_auth, awake, refl, early, polled)
      ]

module _ {W : Type 0} (host : Host W) (client : OidcClient) (scope : Str) where
  -- The device flow ends: with fuel for more rounds than the device code has seconds to live, it
  -- returns a token or an error, or panics, and does not run out of fuel.
  pub authenticate_device_flow-some :
      (fuel : ℕ) (w : W)
      → ((device_auth : DeviceAuthResponse) (w' : W)
          → request_device_code host client scope w ≡ (ok device_auth, w')
          → device_auth.expires_in < fuel)
      → (r : Outcome OidcError TokenResponse × W) × (authenticate_device_flow host client fuel scope
            w
          ≡ some r)
  unfolding authenticate_device_flow
  authenticate_device_flow-some fuel w enough =
      flow_from-some host client fuel (request_device_code host client scope w).0 _
        (λ device_auth e.
          enough device_auth (request_device_code host client scope w).1
            (λ i. (e i, (request_device_code host client scope w).1)))

  -- A token that the device flow returns was the answer of the token endpoint to a poll with the
  -- device code that the provider had given out, made before that code had expired.
  pub authenticate_device_flow-token :
      (fuel : ℕ) (w w' : W) (token : TokenResponse)
      → authenticate_device_flow host client fuel scope w ≡ some (ok token, w')
      → (device_auth : DeviceAuthResponse) × (given : W) × (awake : W) × (request_device_code host
            client scope w
          ≡ (ok device_auth, given))
        × (host.now awake
            < host.now (host.display device_auth.user_code device_auth.verification_uri given)
              + nanos device_auth.expires_in)
        × (poll_for_token host client device_auth.device_code awake ≡ (ok token, w'))
  unfolding authenticate_device_flow
  authenticate_device_flow-token fuel w w' token h =
      let given = (request_device_code host client scope w).1 in
      let (device_auth, awake, e, early, polled) =
        flow_from-token host client fuel (request_device_code host client scope w).0 given w' token
          h in
      (device_auth, given, awake, (λ i. (e i, given)), early, polled)
