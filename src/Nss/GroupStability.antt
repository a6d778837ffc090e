-- ===== src/Nss/GroupStability.antt =====
-- The GIDs of the groups in the cache of crates/nss_oidc, over the calls of its entry points.
-- The GID of a user whose group is not stored is not among them: see Service.SharedGid.
use sssd_oidc.Prelude.{ℕ, ◌≡◌, ◌↔◌, refl, Bool, Option, some}
use sssd_oidc.Text.{Str}
use sssd_oidc.Outcome.{ok}
use sssd_oidc.Model.{Group}
use sssd_oidc.Mapping.Range.{IsRange}
use sssd_oidc.Database.Rows.{IsUnique}
use sssd_oidc.Database.{Engine, clash_groups}
use sssd_oidc.Cache.Slots.{AreAtSlots}
use sssd_oidc.Scim.{ScimGroup, Http, get_group_by_name}
use sssd_oidc.Service.{Service, lookup_group_by_name}
use sssd_oidc.Service.GroupSlots.{id_of, gid_of, IsGroupAt}
use sssd_oidc.Service.SameGid.{IsGroupAt-IsInvariant}
use sssd_oidc.Service.GroupOnline.{found-IsGroupAt, found_group_iff}
use sssd_oidc.Nss.{NssState}
use sssd_oidc.Nss.KeepsLookups.{Holds}
use sssd_oidc.Nss.Reachable.{Reachable, Reachable-Holds}

-- If the configured range of GIDs fits u32 and has at most 2^31 ids, the GIDs and external ids of the
-- stored groups are unique, and each stored group lies at the first slot of its external id that no
-- other stored group holds: two lookups of groups by name that SCIM has answered with a group and
-- that have returned one, with any calls of the NSS module between them, whatever SCIM answers and
-- whatever fails in those, return the same GID exactly if SCIM has answered with the same external id.
pub lookup_group_by_name_same_gid :
    (murmur3_32 : Str → ℕ → Option ℕ) (to_str : Str → Option Str) (foreign_keys : Bool)
    (engine engine' : Engine) (server server' : Http) (name name' : Str)
    (scim_group scim_group' : ScimGroup) (group group' : Group) (state later : NssState)
    (svc svc' : Service)
    → IsRange state.service.config.mapping.gid_range_min state.service.config.mapping.gid_range_size
    → IsUnique clash_groups state.service.cache.conn.gid_cache
    → AreAtSlots id_of gid_of murmur3_32 state.service.config.mapping.gid_range_min
        state.service.config.mapping.gid_range_size state.service.cache.conn.gid_cache
    → get_group_by_name server state.service.scim name ≡ ok (some scim_group)
    → lookup_group_by_name engine murmur3_32 server name state.service ≡ (ok (some group), svc)
    → Reachable murmur3_32 to_str foreign_keys (some (record state { service = svc })) (some later)
    → get_group_by_name server' later.service.scim name' ≡ ok (some scim_group')
    → lookup_group_by_name engine' murmur3_32 server' name' later.service ≡ (ok (some group'), svc')
    → (scim_group'.id ≡ scim_group.id) ↔ (group'.gid ≡ group.gid)
unfolding Holds
lookup_group_by_name_same_gid murmur3_32 to_str foreign_keys engine engine' server server' name
      name' scim_group scim_group' group group' state later svc svc' range unique placed online
      found reached online' found' =
    let mapping = state.service.config.mapping in
    let first_at =
      found-IsGroupAt murmur3_32 mapping range engine server name state.service svc scim_group group
        online found (record { configured = refl; unique = unique; placed = placed }) in
    let later_at =
      Reachable-Holds murmur3_32 to_str (IsGroupAt murmur3_32 mapping scim_group.id group.gid)
        foreign_keys
        (λ e _. IsGroupAt-IsInvariant murmur3_32 mapping range e scim_group.id group.gid)
        (some (record state { service = svc })) (some later) reached first_at in
    found_group_iff murmur3_32 mapping range engine' server' name' later.service svc' scim_group'
      group' online' found' scim_group.id group.gid later_at
