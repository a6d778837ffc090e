-- ===== src/Nss/Stability.antt =====
-- The ids in the cache of crates/nss_oidc, over the calls of its entry points. While a service lives
-- its cache is not purged by it, since only `Service::new` does that.
use sssd_oidc.Prelude.{ℕ, ◌≡◌, ◌↔◌, refl, Bool, true, Option, some, ◌==◌}
use sssd_oidc.Text.{Str}
use sssd_oidc.Outcome.{ok}
use sssd_oidc.Model.{User}
use sssd_oidc.Config.{MappingConfig}
use sssd_oidc.Mapping.Range.{IsRange}
use sssd_oidc.Database.Rows.{IsUnique}
use sssd_oidc.Database.{Engine, clash_users}
use sssd_oidc.Cache.Placement.{IsPlaced}
use sssd_oidc.Service.Placement.{owns, told_of_owns, IsAt, IsAt-owns, IsAt-IsInvariant}
use sssd_oidc.Scim.{ScimUser, Http, get_user_by_name}
use sssd_oidc.Service.{Service, lookup_user_by_name, lookup_user_by_uid}
use sssd_oidc.Service.SameUid.{IsAt-iff, found-IsAt, found_iff}
use sssd_oidc.Service.ByUid.{lookup_user_by_uid-IsAt}
use sssd_oidc.Service.Ranges.{HasRanges, AreInRanges, IsWithin, IsWithin-IsInvariant}
use sssd_oidc.Nss.{NssState}
use sssd_oidc.Nss.KeepsLookups.{Holds}
use sssd_oidc.Nss.Reachable.{Reachable, Reachable-Holds}

module _ (murmur3_32 : Str → ℕ → Option ℕ) (to_str : Str → Option Str) (foreign_keys : Bool)
    (before after : NssState)
    (reached : Reachable murmur3_32 to_str foreign_keys (some before) (some after)) where
  abbrev mapping : MappingConfig
  mapping = before.service.config.mapping

  -- If the configured range of UIDs fits u32 and has at most 2^31 ids, the stored UIDs and external
  -- ids are unique, and each stored user lies at the first slot of its external id that no other
  -- stored external id holds: whatever entry points of the NSS module are then called, in whatever
  -- order, whatever SCIM answers and whatever fails, an external id that has a UID in the cache has
  -- that UID afterwards, and no other.
  pub Reachable-owns :
      IsRange mapping.uid_range_min mapping.uid_range_size
      → IsUnique clash_users before.service.cache.conn.uid_cache
      → IsPlaced murmur3_32 mapping.uid_range_min mapping.uid_range_size before.service.cache.conn
      → (external_id : Str) (uid uid' : ℕ) → owns before.service.cache.conn external_id uid ≡ true
      → owns after.service.cache.conn external_id uid' ≡ (uid' == uid)
  unfolding Holds
  Reachable-owns range unique placed external_id uid uid' own =
      IsAt-owns murmur3_32 mapping external_id uid after.service uid' (
        Reachable-Holds murmur3_32 to_str (IsAt murmur3_32 mapping external_id uid) foreign_keys
          (λ engine _. IsAt-IsInvariant murmur3_32 mapping range engine external_id uid)
          (some before) (some after) reached
          (record {
            settled = record { configured = refl; unique = unique; placed = placed };
            owner = told_of_owns before.service.cache.conn external_id uid own;
          }))

  -- If both configured ranges fit u32 and have at most 2^31 ids, and every UID and GID in the tables
  -- of users and groups lies in its range: whatever entry points of the NSS module are then called, in
  -- whatever order, whatever SCIM answers and whatever fails, every UID and GID in those tables lies
  -- in its range afterwards.
  pub Reachable-AreInRanges :
      HasRanges mapping
      → AreInRanges mapping before.service.cache.conn
      → AreInRanges mapping after.service.cache.conn
  unfolding Holds
  Reachable-AreInRanges ranges inside =
      (Reachable-Holds murmur3_32 to_str (IsWithin mapping) foreign_keys
        (λ engine _. IsWithin-IsInvariant mapping murmur3_32 ranges engine) (some before)
        (some after) reached (record { configured = refl; inside = inside })).inside

-- A lookup by name that SCIM has answered with a user and that has returned one, and then any calls.
module _ (murmur3_32 : Str → ℕ → Option ℕ) (to_str : Str → Option Str) (foreign_keys : Bool)
    (engine : Engine) (server : Http) (name : Str) (scim_user : ScimUser) (user : User)
    (state later : NssState) (svc : Service)
    (range : IsRange state.service.config.mapping.uid_range_min
      state.service.config.mapping.uid_range_size)
    (unique : IsUnique clash_users state.service.cache.conn.uid_cache)
    (placed : IsPlaced murmur3_32 state.service.config.mapping.uid_range_min
      state.service.config.mapping.uid_range_size state.service.cache.conn)
    (online : get_user_by_name server state.service.scim name ≡ ok (some scim_user))
    (found : lookup_user_by_name engine murmur3_32 server name state.service
      ≡ (ok (some user), svc))
    (reached : Reachable murmur3_32 to_str foreign_keys
      (some (record state { service = svc }))
      (some later)) where
  later-IsAt : IsAt murmur3_32 state.service.config.mapping scim_user.id user.uid later.service
  unfolding Holds
  later-IsAt =
      let mapping = state.service.config.mapping in
      let first_at =
        found-IsAt murmur3_32 mapping range engine server name state.service svc scim_user user
          online found (record { configured = refl; unique = unique; placed = placed }) in
      Reachable-Holds murmur3_32 to_str (IsAt murmur3_32 mapping scim_user.id user.uid) foreign_keys
        (λ e _. IsAt-IsInvariant murmur3_32 mapping range e scim_user.id user.uid)
        (some (record state { service = svc })) (some later) reached first_at

  -- If the configured range of UIDs fits u32 and has at most 2^31 ids, the stored UIDs and external
  -- ids are unique, and each stored user lies at the first slot of its external id that no other
  -- stored external id holds: two lookups by name that SCIM has answered with a user and that have
  -- returned one, with any calls of the NSS module between them, whatever SCIM answers and whatever
  -- fails in those, return the same UID exactly if SCIM has answered with the same external id.
  pub lookup_user_by_name_same_uid :
      (engine' : Engine) (server' : Http) (name' : Str) (scim_user' : ScimUser) (user' : User)
      (svc' : Service)
      → get_user_by_name server' later.service.scim name' ≡ ok (some scim_user')
      → lookup_user_by_name engine' murmur3_32 server' name' later.service ≡ (ok (some user'), svc')
      → (scim_user'.id ≡ scim_user.id) ↔ (user'.uid ≡ user.uid)
  lookup_user_by_name_same_uid engine' server' name' scim_user' user' svc' online' found' =
      found_iff murmur3_32 state.service.config.mapping range engine' server' name' later.service
        svc' scim_user' user' online' found' scim_user.id user.uid later-IsAt

  -- If the configured range of UIDs fits u32 and has at most 2^31 ids, the stored UIDs and external
  -- ids are unique, and each stored user lies at the first slot of its external id that no other
  -- stored external id holds: after a lookup by name that SCIM has answered with a user and that has
  -- returned one, and any calls of the NSS module, whatever SCIM answers and whatever fails in those,
  -- a lookup by a UID that returns a user returns one with the external id of the first exactly if
  -- the UID is that of the first.
  pub lookup_user_by_uid_same_id :
      (reader : Engine) (uid : ℕ) (user' : User) (svc' : Service)
      → lookup_user_by_uid reader murmur3_32 uid later.service ≡ (ok (some user'), svc')
      → (user'.external_id ≡ scim_user.id) ↔ (uid ≡ user.uid)
  lookup_user_by_uid_same_id reader uid user' svc' found' =
      IsAt-iff murmur3_32 state.service.config.mapping user'.external_id scim_user.id uid user.uid
        later.service
        (lookup_user_by_uid-IsAt murmur3_32 state.service.config.mapping reader uid later.service
          svc' user' later-IsAt.settled found')
        later-IsAt
