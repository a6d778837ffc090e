-- ===== src/Service/Access.antt =====
-- `check_user_active` of src/service.rs: who is let in.
use sssd_oidc.Prelude.{
  ℕ, ◌≤◌, ◌≡◌, refl, ap, ◌∙◌, sym, true, Option, none, some, ltb, length, inl, inr, Bool-cases,
  Option-cases, arith,
}
use sssd_oidc.Text.{Str}
use sssd_oidc.Outcome.{Outcome, ok, err, panic}
use sssd_oidc.Exec.Success.{bind-ok}
use sssd_oidc.Model.{User}
use sssd_oidc.Config.{OfflineAuthPolicy, cached_status, deny}
use sssd_oidc.Database.{Engine}
use sssd_oidc.Cache.Queries
use sssd_oidc.Scim.{ScimUser, ScimError, Http, get_user_by_name}
use sssd_oidc.Service.Calls.{map_err-ok}
use sssd_oidc.Service.{
  Service, max_name_len, unwrap_or, scim_user_to_model, take_user, user_active, offline_active,
  check_user_active, on_cache, read_cache,
}

module _ (engine : Engine) (murmur3_32 : Str → ℕ → Option ℕ) (server : Http) where
  -- Why a user counts as active: the server says so, or the server fails, the policy falls back to the
  -- cache, and a fresh row there says so.
  pub data IsLetIn (name : Str) (svc : Service) : Type 0 where
    online :
        (scim_user : ScimUser)
        → get_user_by_name server svc.scim name ≡ ok (some scim_user)
        → unwrap_or scim_user.active true ≡ true
        → IsLetIn name svc
    offline :
        (e : ScimError) (user : User)
        → get_user_by_name server svc.scim name ≡ err e
        → svc.config.security.offline_auth_policy ≡ cached_status
        → Queries.get_user_by_name engine svc.cache name ≡ ok (some user)
        → user.active ≡ true
        → IsLetIn name svc

  model-active :
      (scim_user : ScimUser) (svc svc' : Service) (user : User)
      → scim_user_to_model engine murmur3_32 scim_user svc ≡ (ok user, svc')
      → user.active ≡ unwrap_or scim_user.active true
  unfolding scim_user_to_model
  model-active scim_user svc svc' user h =
      let (uid, _, h₁) = bind-ok (read_cache _) _ svc h in
      let (gid, _, h₂) = bind-ok (read_cache _) _ _ h₁ in cc (h₂)

  take-active :
      (scim_user : ScimUser) (svc svc' : Service) (user : User)
      → take_user engine murmur3_32 scim_user svc ≡ (ok user, svc')
      → user.active ≡ unwrap_or scim_user.active true
  unfolding take_user
  take-active scim_user svc svc' user h =
      let (made, e, rest) = bind-ok (scim_user_to_model engine murmur3_32 scim_user) _ svc h in
      let (_, stored, same) = bind-ok (on_cache _) _ _ rest in
      let made_user : made ≡ user = cc (same) in
      rw (← made_user) (model-active scim_user svc _ made e)

  offline_active-true :
      (name : Str) (policy : OfflineAuthPolicy) (svc svc' : Service)
      → offline_active engine murmur3_32 name policy svc ≡ (ok true, svc')
      → (policy ≡ cached_status)
        × ((user : User) × (Queries.get_user_by_name engine svc.cache name ≡ ok (some user))
            × (user.active ≡ true))
  unfolding offline_active read_cache
  offline_active-true name deny svc svc' h = cc
  offline_active-true name cached_status svc svc' h =
      let (cached, read, rest) =
        bind-ok (read_cache (λ cache. Queries.get_user_by_name engine cache name)) _ svc h in
      let found : Queries.get_user_by_name engine svc.cache name ≡ ok cached =
        map_err-ok _ (ap (λ r. r.0) read) in
      elim (Option-cases cached) [
        | inl p ↦ cc (rw p at rest)
        | inr (user, p) ↦ (refl, (user, found ∙ ap ok p, cc (rw p at rest)))
      ]

  user_active-true :
      (name : Str) (answer : Outcome ScimError (Option ScimUser)) (svc svc' : Service)
      → get_user_by_name server svc.scim name ≡ answer
      → user_active engine murmur3_32 name answer svc ≡ (ok true, svc')
      → IsLetIn name svc
  unfolding user_active
  user_active-true name (ok (some scim_user)) svc svc' a h =
      let (user, taken, same) = bind-ok (take_user engine murmur3_32 scim_user) _ svc h in
      online scim_user a (sym (take-active scim_user svc _ user taken) ∙ cc (same))
  user_active-true name (ok none) svc svc' a h = cc
  user_active-true name (err e) svc svc' a h =
      let (policy, (user, read, active)) =
        offline_active-true name svc.config.security.offline_auth_policy svc svc' h in
      offline e user a policy read active
  user_active-true name panic svc svc' a h = cc

  -- `check_user_active` answers that a user is active only if the name has at most 256 bytes and either
  -- the server returned a user that it does not call inactive, or the server failed, the policy is
  -- `cached_status`, and the cache has a fresh user of that name that is active.
  pub check_user_active-true :
      (name : Str) (svc svc' : Service)
      → check_user_active engine murmur3_32 server name svc ≡ (ok true, svc')
      → (length name ≤ max_name_len) × IsLetIn name svc
  unfolding check_user_active
  check_user_active-true name svc svc' h = elim (Bool-cases (ltb max_name_len (length name))) [
    | inl long ↦ cc (rw (long, check_user_active) at h)
    | inr short ↦
        (ground arith, user_active-true name _ svc svc' refl (rw (short, check_user_active) at h))
  ]
