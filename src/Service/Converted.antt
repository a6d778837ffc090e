-- ===== src/Service/Converted.antt =====
-- The users and groups that src/service.rs converts: which ids `resolve_uid` and `resolve_gid` of
-- src/cache.rs have chosen for them.
use sssd_oidc.Prelude.{
  ℕ, ◌+◌, ◌≤◌, ◌<◌, ◌≡◌, sym, ap, ◌∙◌, Bool, true, false, Option, none, some, inl, inr,
  Option-cases,
}
use sssd_oidc.Text.{Str}
use sssd_oidc.Outcome.{Outcome, ok}
use sssd_oidc.Exec.Success.{bind-ok, ok_inj}
use sssd_oidc.Model.{User, Group}
use sssd_oidc.Mapping.{FromExhausted, resolve_id, id_to_uid}
use sssd_oidc.Mapping.Range.{IsRange}
use sssd_oidc.Mapping.Probing.{IsFirst, resolve_id-IsFirst_iff}
use sssd_oidc.Mapping.Bounds.{resolve_id_bounds}
use sssd_oidc.Mapping.First.{IsFirst-map}
use sssd_oidc.Database.Rows.{IsUnique}
use sssd_oidc.Database.{Engine, clash_users}
use sssd_oidc.Cache.State.{Cache, cache_error_from_exhausted}
use sssd_oidc.Cache.Queries.{uid_owner, gid_owner, resolve_uid, resolve_gid}
use sssd_oidc.Cache.Holder.{told, uid_owner-told}
use sssd_oidc.Scim.{ScimUser, ScimGroup}
use sssd_oidc.Service.{Service, scim_user_to_model, scim_group_to_model, gid_external, read_cache}
use sssd_oidc.Service.Calls.{read_cache-ok, read_cache_same}

-- A user that was converted has the ids that `resolve_uid` and `resolve_gid` chose.
pub model-ids :
    (engine : Engine) (murmur3_32 : Str → ℕ → Option ℕ) (scim_user : ScimUser) (svc svc' : Service)
    (user : User)
    → scim_user_to_model engine murmur3_32 scim_user svc ≡ (ok user, svc')
    → (resolve_uid engine murmur3_32 svc.cache scim_user.id svc.config.mapping.uid_range_min
          svc.config.mapping.uid_range_size
        ≡ ok user.uid)
      × (resolve_gid engine murmur3_32 svc.cache
            (gid_external scim_user)
            svc.config.mapping.gid_range_min
            svc.config.mapping.gid_range_size
          ≡ ok user.gid)
      × (user.external_id ≡ scim_user.id)
unfolding scim_user_to_model
model-ids engine murmur3_32 scim_user svc svc' user h =
    let mc = svc.config.mapping in
    let gid_at = λ (cache : Cache).
      resolve_gid engine murmur3_32 cache (gid_external scim_user) mc.gid_range_min
        mc.gid_range_size in
    let (uid, e, h₁) = bind-ok (read_cache _) _ svc h in
    let (gid, f, h₂) = bind-ok (read_cache gid_at) _ _ h₁ in
    let same = ok_inj _ _ (ap (λ r. r.0) h₂) in
    (
      read_cache-ok _ svc _ e ∙ ap (λ u. ok u.uid) same,
      ap gid_at (ap (λ s. s.cache) (sym (read_cache_same _ svc)))
          ∙ read_cache-ok gid_at _ _ f
          ∙ ap (λ u. ok u.gid) same,
      sym (ap (λ u. u.external_id) same),
    )

pub group_model-ids :
    (engine : Engine) (murmur3_32 : Str → ℕ → Option ℕ) (scim_group : ScimGroup)
    (svc svc' : Service) (group : Group)
    → scim_group_to_model engine murmur3_32 scim_group svc ≡ (ok group, svc')
    → (resolve_gid engine murmur3_32 svc.cache scim_group.id svc.config.mapping.gid_range_min
          svc.config.mapping.gid_range_size
        ≡ ok group.gid)
      × (group.external_id ≡ scim_group.id)
unfolding scim_group_to_model
group_model-ids engine murmur3_32 scim_group svc svc' group h =
    let (gid, e, h₁) = bind-ok (read_cache _) _ svc h in
    let same = ok_inj _ _ (ap (λ r. r.0) h₁) in
    (read_cache-ok _ svc _ e ∙ ap (λ g. ok g.gid) same, sym (ap (λ g. g.external_id) same))

abbrev pub IsInRange : ℕ → ℕ → ℕ → Type 0
IsInRange range_min range_size id = (range_min ≤ id) × (id < range_min + range_size)

resolve_id-IsInRange :
    {E : Type 0} ⦃from_exhausted : FromExhausted E⦄ (murmur3_32 : Str → ℕ → Option ℕ)
    (range_min range_size : ℕ) (external_id : Str) (is_taken : ℕ → Outcome E (Option Bool)) (u : ℕ)
    → IsRange range_min range_size
    → resolve_id murmur3_32 external_id range_min range_size is_taken ≡ ok u
    → IsInRange range_min range_size u
unfolding resolve_id id_to_uid
resolve_id-IsInRange murmur3_32 range_min range_size external_id is_taken u range h =
    elim (Option-cases (murmur3_32 external_id 0)) [
      | inl e ↦ cc (rw (e, resolve_id) at h)
      | inr (hash, e) ↦
          let (low, high, _) =
            resolve_id_bounds murmur3_32 range_min range_size external_id hash e is_taken u range
              h in
          (low, high)
    ]

-- The ids of both ranges.
pub resolve_uid-IsInRange :
    (engine : Engine) (murmur3_32 : Str → ℕ → Option ℕ) (cache : Cache) (external_id : Str)
    (range_min range_size u : ℕ)
    → IsRange range_min range_size
    → resolve_uid engine murmur3_32 cache external_id range_min range_size ≡ ok u
    → IsInRange range_min range_size u
unfolding resolve_uid
resolve_uid-IsInRange engine murmur3_32 cache external_id range_min range_size u range h =
    resolve_id-IsInRange murmur3_32 range_min range_size external_id
      (λ c. uid_owner engine cache c external_id) u range h

pub resolve_gid-IsInRange :
    (engine : Engine) (murmur3_32 : Str → ℕ → Option ℕ) (cache : Cache) (external_id : Str)
    (range_min range_size u : ℕ)
    → IsRange range_min range_size
    → resolve_gid engine murmur3_32 cache external_id range_min range_size ≡ ok u
    → IsInRange range_min range_size u
unfolding resolve_gid
resolve_gid-IsInRange engine murmur3_32 cache external_id range_min range_size u range h =
    resolve_id-IsInRange murmur3_32 range_min range_size external_id
      (λ c. gid_owner engine cache c external_id) u range h

-- `resolve_uid` that has chosen a UID has hashed the external id, and chosen its first slot.
pub resolve_uid-IsFirst :
    (engine : Engine) (murmur3_32 : Str → ℕ → Option ℕ) (cache : Cache) (external_id : Str)
    (range_min range_size uid : ℕ)
    → IsRange range_min range_size
    → IsUnique clash_users cache.conn.uid_cache
    → resolve_uid engine murmur3_32 cache external_id range_min range_size ≡ ok uid
    → (hash : ℕ) × (murmur3_32 external_id 0 ≡ some hash)
      × IsFirst range_min range_size hash (told cache.conn external_id) 0 uid
unfolding resolve_uid resolve_id id_to_uid
resolve_uid-IsFirst engine murmur3_32 cache external_id range_min range_size uid range unique h =
    elim (Option-cases (murmur3_32 external_id 0)) [
      | inl e ↦ cc (rw (e, resolve_uid) at h)
      | inr (hash, e) ↦
          let f =
            (resolve_id-IsFirst_iff murmur3_32 range external_id hash e
                (λ c. uid_owner engine cache c external_id) uid).0
              h in
          (
            hash,
            e,
            IsFirst-map (told cache.conn external_id) uid f
                (elim f.accepted [
                  | inl a ↦ inl (uid_owner-told engine cache uid external_id none unique a)
                  | inr a ↦ inr (uid_owner-told engine cache uid external_id (some true) unique a)
                ])
                (λ c. uid_owner-told engine cache c external_id (some false) unique),
          )
    ]
