-- ===== src/Oidc/Rounds.antt =====
-- The polling loop of src/oidc.rs as a sequence of rounds: it returns a token exactly when the
-- provider grants one after rounds in which it asks to wait.
use sssd_oidc.Prelude.{
  ℕ, zero, suc, ◌+◌, ◌%◌, ◌^◌, ◌≤◌, ◌<◌, ◌≡◌, ◌↔◌, sym, ap, ◌∙◌, false, some, leb, inl, inr,
  Bool-cases, arith,
}
use mathlib.Core.Option.{some-injective}
use sssd_oidc.Text.{Str}
use sssd_oidc.Outcome.{ok, err}
use sssd_oidc.Oidc.{authorization_pending, slow_down, OidcClient, TokenResponse, Host}
use sssd_oidc.Oidc.Flow.{poll_for_token, after_poll, poll_loop}
use sssd_oidc.Oidc.Loop.{after_poll-cases, loop_expired, loop_ends, loop_continues}

module _ {W : Type 0} (host : Host W) (client : OidcClient) (device_code : Str) (deadline : ℕ)
    (token : TokenResponse) (w' : W) where
  -- So many rounds from this interval and state on end with the token: each wakes before the deadline,
  -- and its poll is answered by the token, or by the wish to wait, or to wait longer each time.
  pub data Rounds : (rounds interval_secs : ℕ) → W → Type 0 where
    granted :
        {i : ℕ} {w : W}
        → host.now (host.sleep i w) < deadline
        → poll_for_token host client device_code (host.sleep i w) ≡ (ok token, w')
        → Rounds 1 i w
    pending :
        {rounds i : ℕ} {w v : W}
        → host.now (host.sleep i w) < deadline
        → poll_for_token host client device_code (host.sleep i w) ≡ (err authorization_pending, v)
        → Rounds rounds i v
        → Rounds (rounds + 1) i w
    slower :
        {rounds i : ℕ} {w v : W}
        → host.now (host.sleep i w) < deadline
        → poll_for_token host client device_code (host.sleep i w) ≡ (err slow_down, v)
        → Rounds rounds ((i + 5) % 2 ^ 64) v
        → Rounds (rounds + 1) i w

  loop-Rounds :
      (fuel i : ℕ) (w : W)
      → poll_loop host client fuel device_code deadline i w ≡ some (ok token, w')
      → (rounds : ℕ) × (rounds ≤ fuel) × Rounds rounds i w
  unfolding poll_loop
  loop-Rounds zero i w h = cc
  loop-Rounds (suc fuel) i w h =
      let awake = host.sleep i w in
      let (answer, v) = poll_for_token host client device_code awake in
      elim (Bool-cases (leb deadline (host.now awake))) [
        | inl late ↦ cc (loop_expired host client device_code deadline fuel i w late, h)
        | inr early ↦
            let soon : host.now awake < deadline = ground arith in
            elim (after_poll-cases host client i answer) [
              | inl e ↦
                  let same = some-injective _ _ (
                    sym (loop_ends host client device_code deadline fuel i w answer early e) ∙ h) in
                  (1, omega arith, granted soon same)
              | inr (inl (e, f)) ↦
                  let (rounds, few, r) = loop-Rounds fuel i v (
                    sym (loop_continues host client device_code deadline fuel i i w early f) ∙ h) in
                  (rounds + 1, omega arith, pending soon (λ j. (e j, v)) r)
              | inr (inr (e, f)) ↦
                  let (rounds, few, r) = loop-Rounds fuel _ v (
                    sym (loop_continues host client device_code deadline fuel i _ w early f) ∙ h) in
                  (rounds + 1, omega arith, slower soon (λ j. (e j, v)) r)
            ]
      ]

  Rounds-loop :
      (fuel rounds i : ℕ) (w : W)
      → Rounds rounds i w
      → rounds ≤ fuel
      → poll_loop host client fuel device_code deadline i w ≡ some (ok token, w')
  unfolding poll_loop after_poll
  Rounds-loop zero rounds i w (granted soon e) few = absurd (omega arith)
  Rounds-loop zero rounds i w (pending soon e r) few = absurd (omega arith)
  Rounds-loop zero rounds i w (slower soon e r) few = absurd (omega arith)
  Rounds-loop (suc fuel) rounds i w (granted soon e) few =
      let early : leb deadline (host.now (host.sleep i w)) ≡ false = ground arith in
      loop_ends host client device_code deadline fuel i w (ok token) early
        (ap (λ r. after_poll host client i r.0) e)
      ∙ ap (λ r. some (ok token, r.1)) e
  Rounds-loop (suc fuel) rounds i w (pending {rounds = k} {v = v} soon e r) few =
      let early : leb deadline (host.now (host.sleep i w)) ≡ false = ground arith in
      loop_continues host client device_code deadline fuel i i w early
        (ap (λ r. after_poll host client i r.0) e)
      ∙ ap (λ r. poll_loop host client fuel device_code deadline i r.1) e
      ∙ Rounds-loop fuel k i v r (omega arith)
  Rounds-loop (suc fuel) rounds i w (slower {rounds = k} {v = v} soon e r) few =
      let early : leb deadline (host.now (host.sleep i w)) ≡ false = ground arith in
      loop_continues host client device_code deadline fuel i _ w early
        (ap (λ r. after_poll host client i r.0) e)
      ∙ ap (λ r. poll_loop host client fuel device_code deadline ((i + 5) % 2 ^ 64) r.1) e
      ∙ Rounds-loop fuel k ((i + 5) % 2 ^ 64) v r (omega arith)

  -- The polling loop returns a token exactly when, in at most as many rounds as the fuel allows, each
  -- begun before the deadline, the provider answers that the authorization is pending, at the same
  -- interval, or to slow down, at an interval of five seconds more, and then with that token.
  pub poll_loop-Rounds_iff :
      (fuel i : ℕ) (w : W)
      → (poll_loop host client fuel device_code deadline i w ≡ some (ok token, w'))
        ↔ ((rounds : ℕ) × (rounds ≤ fuel) × Rounds rounds i w)
  poll_loop-Rounds_iff fuel i w =
      (loop-Rounds fuel i w, (λ (rounds, few, r). Rounds-loop fuel rounds i w r few))
