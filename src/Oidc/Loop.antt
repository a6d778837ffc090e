-- ===== src/Oidc/Loop.antt =====
-- One round of the polling loop of src/oidc.rs.
use sssd_oidc.Prelude.{
  ℕ, suc, ◌+◌, ◌%◌, ◌^◌, ◌≤◌, ◌≡◌, refl, Bool, true, false, List, some, leb, ◌⊎◌, inl, inr, arith,
}
use sssd_oidc.Text.{Str}
use sssd_oidc.Outcome.{Outcome, ok, err, panic}
use sssd_oidc.Oidc.{
  OidcError, http, io, missing_field, issuer_mismatch, insecure_endpoint, authorization_pending,
  slow_down, expired_token, token_error, missing_id_token, subject_mismatch, id_token_decode,
  jwt_validation, OidcClient, post, TokenResponse, Host,
}
use sssd_oidc.Exec.Keeps.{Keeps, Keeps-bind, Keeps-reads}
use sssd_oidc.Oidc.Flow.{poll_for_token, after_poll, poll_loop}

-- A round ends the loop with its own result, or goes on with the interval kept or raised.
pub after_poll-cases :
    {W : Type 0} (host : Host W) (client : OidcClient) (i : ℕ) (r : Outcome OidcError TokenResponse)
    → (after_poll host client i r ≡ inl r)
      ⊎ (((r ≡ err authorization_pending) × (after_poll host client i r ≡ inr i))
          ⊎ ((r ≡ err slow_down) × (after_poll host client i r ≡ inr ((i + 5) % 2 ^ 64))))
unfolding after_poll
after_poll-cases host client i (ok token) = inl refl
after_poll-cases host client i panic = inl refl
after_poll-cases host client i (err authorization_pending) = inr (inl (refl, refl))
after_poll-cases host client i (err slow_down) = inr (inr (refl, refl))
after_poll-cases host client i (err (http e)) = inl refl
after_poll-cases host client i (err (io e)) = inl refl
after_poll-cases host client i (err (missing_field e)) = inl refl
after_poll-cases host client i (err (issuer_mismatch a b)) = inl refl
after_poll-cases host client i (err (insecure_endpoint e)) = inl refl
after_poll-cases host client i (err expired_token) = inl refl
after_poll-cases host client i (err (token_error e)) = inl refl
after_poll-cases host client i (err missing_id_token) = inl refl
after_poll-cases host client i (err (subject_mismatch a b)) = inl refl
after_poll-cases host client i (err (id_token_decode e)) = inl refl
after_poll-cases host client i (err (jwt_validation e)) = inl refl

module _ {W : Type 0} (host : Host W) (client : OidcClient) (device_code : Str) where
  post-now :
      (w : W) (as_error : Bool) (url : Str) (form : List (Str × Str))
      → Keeps (λ v. host.now w ≤ host.now v) (post host as_error url form)
  unfolding post
  post-now w as_error url form = record {
    at = λ v h. omega (arith, host.send_form-now as_error url form v);
  }

  pub poll_for_token-now :
      (w : W) → host.now w ≤ host.now (poll_for_token host client device_code w).1
  unfolding poll_for_token
  poll_for_token-now w =
      let P : W → Type 0 = λ v. host.now w ≤ host.now v in
      (Keeps-bind P (post host false client.endpoints.token_endpoint _) _ (post-now w _ _ _)
          (λ response. Keeps-reads P _)).at
        w (omega arith)

  module _ (deadline : ℕ) where
    abbrev pub round_end : ℕ → ℕ → W → Outcome OidcError TokenResponse ⊎ ℕ
    round_end fuel i w =
        after_poll host client i (poll_for_token host client device_code (host.sleep i w)).0

    pub loop_expired :
        (fuel i : ℕ) (w : W)
        → leb deadline (host.now (host.sleep i w)) ≡ true
        → poll_loop host client (suc fuel) device_code deadline i w
          ≡ some (err expired_token, host.sleep i w)
    unfolding poll_loop
    loop_expired fuel i w h = rw h

    pub loop_ends :
        (fuel i : ℕ) (w : W) (r : Outcome OidcError TokenResponse)
        → leb deadline (host.now (host.sleep i w)) ≡ false
        → round_end fuel i w ≡ inl r
        → poll_loop host client (suc fuel) device_code deadline i w
          ≡ some (r, (poll_for_token host client device_code (host.sleep i w)).1)
    unfolding poll_loop
    loop_ends fuel i w r h e = rw (h, e)

    pub loop_continues :
        (fuel i i' : ℕ) (w : W)
        → leb deadline (host.now (host.sleep i w)) ≡ false
        → round_end fuel i w ≡ inr i'
        → poll_loop host client (suc fuel) device_code deadline i w
          ≡ poll_loop host client fuel device_code deadline i'
              (poll_for_token host client device_code (host.sleep i w)).1
    unfolding poll_loop
    loop_continues fuel i i' w h e = rw (h, e)
