-- ===== src/Service.antt =====
-- src/service.rs: the façade that the NSS and PAM modules use.
-- A method is an action on the `Service`; only its cache changes.
pub mod Calls
pub mod Invariant
pub mod Methods
pub mod Online
pub mod Access
pub mod Converted
pub mod StoredUser
pub mod Placement
pub mod Ranges
pub mod GroupSlots
pub mod SameUid
pub mod SameGid
pub mod SharedGid
pub mod GroupOnline
pub mod ByUid
use sssd_oidc.Prelude.{
  ℕ, Bool, true, false, List, [], ◌∷◌, Option, none, some, length, first, ltb, map, if◌then◌else◌,
}
use sssd_oidc.Text.{Str, ascii, replace}
use sssd_oidc.Outcome.{Outcome, ok, err, panic, map_err}
use sssd_oidc.Exec.{Exec, pure, reads, ◌>>=◌, ◌>>◌}
use sssd_oidc.Model.{User, Group}
use sssd_oidc.Config.{Config, OfflineAuthPolicy, cached_status, deny}
use sssd_oidc.Scim.{ScimUser, ScimGroup, ScimGroupRef, ScimMemberRef, ScimError, ScimClient, Http}
use sssd_oidc.Scim
use sssd_oidc.Database.{Engine}
use sssd_oidc.Cache.State.{CacheError, Cache}
use sssd_oidc.Cache.Queries
use sssd_oidc.Cache.Updates

pub data ServiceError : Type 0 where
  scim_error : ScimError → ServiceError
  cache_error : CacheError → ServiceError
  range_exhausted : ServiceError

abbrev pub max_name_len : ℕ
max_name_len = 256

pub record Service : Type 0 where
  pub scim : ScimClient
  pub cache : Cache
  pub config : Config

abbrev pub ServiceM : Type 0 → Type 0
ServiceM = Exec Service ServiceError

-- A call of a cache method, with `?`.
unfoldable pub on_cache : {A : Type 0} → Exec Cache CacheError A → ServiceM A
on_cache m svc =
    let (r, cache') = m svc.cache in (map_err cache_error r, record svc { cache = cache' })

unfoldable pub read_cache : {A : Type 0} → (Cache → Outcome CacheError A) → ServiceM A
read_cache f svc = (map_err cache_error (f svc.cache), svc)

abbrev pub unwrap_or {ℓ} : {A : Type ℓ} → Option A → A → A
unwrap_or none d = d
unwrap_or (some a) d = a

-- The id whose GID is the primary group: the first group's, or else the user's own.
unfoldable pub gid_external : ScimUser → Str
gid_external scim_user = elim (first scim_user.groups) [
  | some first_group ↦ first_group.value
  | none ↦ scim_user.id
]

-- `filter_map(|m| m.display.clone())`
unfoldable pub member_names : List ScimMemberRef → List Str
member_names [] = []
member_names (m ∷ ms) = elim m.display [
  | some name ↦ name ∷ member_names ms
  | none ↦ member_names ms
]

module _ (engine : Engine) (murmur3_32 : Str → ℕ → Option ℕ) where
  unfoldable pub scim_user_to_model : ScimUser → ServiceM User
  scim_user_to_model scim_user svc =
      let mc = svc.config.mapping in
      let defaults = svc.config.user_defaults in
      (do
        uid ← read_cache λ cache.
            Queries.resolve_uid engine murmur3_32 cache scim_user.id mc.uid_range_min
              mc.uid_range_size
        gid ← read_cache λ cache.
            Queries.resolve_gid engine murmur3_32 cache (gid_external scim_user) mc.gid_range_min
              mc.gid_range_size
        pure (record {
          external_id = scim_user.id;
          name = scim_user.user_name;
          uid = uid;
          gid = gid;
          gecos = unwrap_or scim_user.display_name [];
          home = replace defaults.home_template (ascii "{user}") scim_user.user_name;
          shell = defaults.shell;
          active = unwrap_or scim_user.active true;
        }))
        svc

  unfoldable pub scim_group_to_model : ScimGroup → ServiceM Group
  scim_group_to_model scim_group svc =
      let mc = svc.config.mapping in
      (do
        gid ← read_cache λ cache.
            Queries.resolve_gid engine murmur3_32 cache scim_group.id mc.gid_range_min
              mc.gid_range_size
        pure (record {
          external_id = scim_group.id;
          name = scim_group.display_name;
          gid = gid;
          members = member_names scim_group.members;
        }))
        svc

  -- Converts a SCIM user and caches it.
  unfoldable pub take_user : ScimUser → ServiceM User
  take_user scim_user = do
    user ← scim_user_to_model scim_user
    on_cache (Updates.store_user engine user)
    pure user

  unfoldable pub take_group : ScimGroup → ServiceM Group
  take_group scim_group = do
    group ← scim_group_to_model scim_group
    on_cache (Updates.store_group engine group)
    pure group

  -- The arms of the `match` on the SCIM answer.
  unfoldable pub user_by_name : Str → Outcome ScimError (Option ScimUser) → ServiceM (Option User)
  user_by_name name (ok (some scim_user)) = do user ← take_user scim_user; pure (some user)
  user_by_name name (ok none) = read_cache λ cache. Queries.get_user_by_name engine cache name
  user_by_name name (err e) = read_cache λ cache. Queries.get_user_by_name engine cache name
  user_by_name name panic = reads λ _. panic

  unfoldable pub group_by_name :
      Str → Outcome ScimError (Option ScimGroup) → ServiceM (Option Group)
  group_by_name name (ok (some scim_group)) = do group ← take_group scim_group; pure (some group)
  group_by_name name (ok none) = read_cache λ cache. Queries.get_group_by_name engine cache name
  group_by_name name (err e) = read_cache λ cache. Queries.get_group_by_name engine cache name
  group_by_name name panic = reads λ _. panic

  -- The cached status, or no access, by the policy.
  unfoldable pub offline_active : Str → OfflineAuthPolicy → ServiceM Bool
  offline_active name cached_status = do
    cached ← read_cache λ cache. Queries.get_user_by_name engine cache name
    pure (elim cached [ some user ↦ user.active | none ↦ false ])
  offline_active name deny = pure false

  unfoldable pub user_active : Str → Outcome ScimError (Option ScimUser) → ServiceM Bool
  user_active name (ok (some scim_user)) = do user ← take_user scim_user; pure user.active
  user_active name (ok none) = pure false
  user_active name (err e) = λ svc. offline_active name svc.config.security.offline_auth_policy svc
  user_active name panic = reads λ _. panic

  -- The loop over the SCIM groups of a user.
  unfoldable pub resolve_gids : List ScimGroupRef → ServiceM (List ℕ)
  resolve_gids [] = pure []
  resolve_gids (g ∷ groups) = λ svc.
      let mc = svc.config.mapping in
      (do
        gid ← read_cache λ cache.
            Queries.resolve_gid engine murmur3_32 cache g.value mc.gid_range_min mc.gid_range_size
        gids ← resolve_gids groups
        pure (gid ∷ gids))
        svc

  unfoldable pub groups_for_user : Str → Outcome ScimError (Option ScimUser) → ServiceM (List ℕ)
  groups_for_user name (ok (some scim_user)) = do take_user scim_user; resolve_gids scim_user.groups
  groups_for_user name (ok none) = pure []
  groups_for_user name (err e) = do
    cached ← read_cache λ cache. Queries.get_groups_for_member engine cache name
    pure (map (λ (g : Group). g.gid) cached)
  groups_for_user name panic = reads λ _. panic

  unfoldable pub take_users : List ScimUser → ServiceM (List User)
  take_users [] = pure []
  take_users (su ∷ scim_users) = do
    user ← take_user su
    users ← take_users scim_users
    pure (user ∷ users)

  unfoldable pub take_groups : List ScimGroup → ServiceM (List Group)
  take_groups [] = pure []
  take_groups (sg ∷ scim_groups) = do
    group ← take_group sg
    groups ← take_groups scim_groups
    pure (group ∷ groups)

  unfoldable pub lookup_user_by_uid : ℕ → ServiceM (Option User)
  lookup_user_by_uid uid = read_cache λ cache. Queries.get_user_by_uid engine cache uid

  unfoldable pub lookup_group_by_gid : ℕ → ServiceM (Option Group)
  lookup_group_by_gid gid = read_cache λ cache. Queries.get_group_by_gid engine cache gid

  -- A failed purge is logged, and the service starts all the same.
  unfoldable pub new : Config → ScimClient → Cache → Service
  new config scim cache = record {
    scim = scim;
    cache = (Updates.purge_expired engine config.cache.ttl_seconds cache).1;
    config = config;
  }

  module _ (server : Http) where
    unfoldable pub lookup_user_by_name : Str → ServiceM (Option User)
    lookup_user_by_name name svc =
        if ltb max_name_len (length name)
        then (ok none, svc)
        else user_by_name name (Scim.get_user_by_name server svc.scim name) svc

    unfoldable pub lookup_group_by_name : Str → ServiceM (Option Group)
    lookup_group_by_name name svc =
        if ltb max_name_len (length name)
        then (ok none, svc)
        else group_by_name name (Scim.get_group_by_name server svc.scim name) svc

    unfoldable pub check_user_active : Str → ServiceM Bool
    check_user_active name svc =
        if ltb max_name_len (length name)
        then (ok false, svc)
        else user_active name (Scim.get_user_by_name server svc.scim name) svc

    unfoldable pub lookup_groups_for_user : Str → ServiceM (List ℕ)
    lookup_groups_for_user name svc =
        if ltb max_name_len (length name)
        then (ok [], svc)
        else groups_for_user name (Scim.get_user_by_name server svc.scim name) svc

    unfoldable pub list_all_users : ServiceM (List User)
    list_all_users = do
      scim_users ← reads λ svc. map_err scim_error (Scim.list_users server svc.scim)
      take_users scim_users

    unfoldable pub list_all_groups : ServiceM (List Group)
    list_all_groups = do
      scim_groups ← reads λ svc. map_err scim_error (Scim.list_groups server svc.scim)
      take_groups scim_groups

    unfoldable pub is_online : Service → Bool
    is_online svc = Scim.is_online server svc.scim
