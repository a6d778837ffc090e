-- ===== src/Service/Online.antt =====
-- src/service.rs: a user found online is found again by its UID.
use sssd_oidc.Prelude.{
  ℕ, ◌+◌, ◌≤◌, ◌≡◌, refl, ap, subst, ◌∙◌, Option, inl, inr, Bool-cases, none, some, ltb,
  if◌then◌else◌, length,
}
use sssd_oidc.Text.{Str}
use sssd_oidc.Outcome.{ok}
use sssd_oidc.Exec.Success.{bind-ok, bind_some-ok}
use sssd_oidc.Service.Calls.{on_cache-ok}
use sssd_oidc.Service.Invariant.{model-same}
use sssd_oidc.Model.{User}
use sssd_oidc.Database.{Engine, replace_user, select_user_by_uid}
use sssd_oidc.Cache.Updates.{store_user}
use sssd_oidc.Cache.RoundTrip.{store_user-get_user_by_uid}
use sssd_oidc.Scim.{ScimUser, Http, get_user_by_name}
use sssd_oidc.Service.{
  Service, max_name_len, scim_user_to_model, take_user, user_by_name, lookup_user_by_name,
  lookup_user_by_uid, on_cache, read_cache,
}

module _ (engine : Engine) (murmur3_32 : Str → ℕ → Option ℕ) where
  -- Taking a user from SCIM stores it.
  pub take_user-ok :
      (scim_user : ScimUser) (svc svc' : Service) (user : User)
      → take_user engine murmur3_32 scim_user svc ≡ (ok user, svc')
      → store_user engine user svc.cache ≡ (ok tt, svc'.cache)
  unfolding take_user
  take_user-ok scim_user svc svc' user h =
      let (made, e, rest) = bind-ok (scim_user_to_model engine murmur3_32 scim_user) _ svc h in
      let mid = (scim_user_to_model engine murmur3_32 scim_user svc).1 in
      let (_, stored, same) = bind-ok (on_cache (store_user engine made)) _ mid rest in
      let made_user : made ≡ user = cc (same) in
      let left : (on_cache (store_user engine made) mid).1 ≡ svc' = ap (λ r. r.1) same in
      let kept =
        on_cache-ok (store_user engine made) mid svc' tt (stored ∙ (λ i. (ok tt, left i))) in
      rw (← made_user) (
        subst (λ (s : Service). store_user engine made s.cache ≡ (ok tt, svc'.cache))
          (model-same engine murmur3_32 scim_user svc) kept)

  pub take_user-made :
      (scim_user : ScimUser) (svc svc' : Service) (user : User)
      → take_user engine murmur3_32 scim_user svc ≡ (ok user, svc')
      → (scim_user_to_model engine murmur3_32 scim_user svc).0 ≡ ok user
  unfolding take_user
  take_user-made scim_user svc svc' user h =
      let (made, e, rest) = bind-ok (scim_user_to_model engine murmur3_32 scim_user) _ svc h in
      let mid = (scim_user_to_model engine murmur3_32 scim_user svc).1 in
      let (_, stored, same) = bind-ok (on_cache (store_user engine made)) _ mid rest in
      let made_user : made ≡ user = cc (same) in ap (λ r. r.0) e ∙ ap ok made_user

  module _ (server : Http) where
    -- A user that SCIM has found has been taken.
    pub taken_user :
        (name : Str) (svc svc' : Service) (scim_user : ScimUser) (user : User)
        → get_user_by_name server svc.scim name ≡ ok (some scim_user)
        → lookup_user_by_name engine murmur3_32 server name svc ≡ (ok (some user), svc')
        → take_user engine murmur3_32 scim_user svc ≡ (ok user, svc')
    unfolding lookup_user_by_name user_by_name
    taken_user name svc svc' scim_user user online h =
        elim (Bool-cases (ltb max_name_len (length name))) [
          | inl long ↦ cc (rw (long, lookup_user_by_name) at h)
          | inr named ↦
              bind_some-ok (take_user engine murmur3_32 scim_user) svc svc' user
                (rw (named, online, lookup_user_by_name) at h)
        ]

    -- And it has been stored.
    pub stored_user :
        (name : Str) (svc svc' : Service) (scim_user : ScimUser) (user : User)
        → get_user_by_name server svc.scim name ≡ ok (some scim_user)
        → lookup_user_by_name engine murmur3_32 server name svc ≡ (ok (some user), svc')
        → store_user engine user svc.cache ≡ (ok tt, svc'.cache)
    stored_user name svc svc' scim_user user online h =
        take_user-ok scim_user svc svc' user (taken_user name svc svc' scim_user user online h)

    -- After a lookup by name that SCIM has answered with a user, a lookup by the UID that the user got
    -- returns the same user until the time to live has passed since it was written, and none later, if
    -- its read works.
    pub lookup_user_by_name-lookup_user_by_uid :
        (reader : Engine) (name : Str) (svc svc' : Service) (scim_user : ScimUser) (user : User)
        → length name ≤ max_name_len
        → get_user_by_name server svc.scim name ≡ ok (some scim_user)
        → lookup_user_by_name engine murmur3_32 server name svc ≡ (ok (some user), svc')
        → reader.fault (select_user_by_uid user.uid svc'.cache.ttl_seconds) svc'.cache.conn ≡ none
        → lookup_user_by_uid reader murmur3_32 user.uid svc' ≡ (
          ok (
              if ltb
                (reader.clock (select_user_by_uid user.uid svc'.cache.ttl_seconds) svc'.cache.conn)
                (engine.clock (replace_user user) svc.cache.conn + svc'.cache.ttl_seconds)
              then some user
              else none),
          svc',
        )
    unfolding lookup_user_by_uid read_cache
    lookup_user_by_name-lookup_user_by_uid reader name svc svc' scim_user user short online h
          works =
        let stored = stored_user name svc svc' scim_user user online h in
        rw (store_user-get_user_by_uid engine reader svc.cache svc'.cache user stored works) refl
