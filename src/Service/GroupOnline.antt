-- ===== src/Service/GroupOnline.antt =====
-- `lookup_group_by_name` of src/service.rs where SCIM answers with a group.
use sssd_oidc.Prelude.{
  ℕ, ◌≡◌, ◌↔◌, sym, subst, ap, ◌∙◌, Option, some, inl, inr, length, ltb, Bool-cases,
}
use sssd_oidc.Text.{Str}
use sssd_oidc.Outcome.{ok}
use sssd_oidc.Exec.Success.{bind-ok, bind_some-ok, with_final}
use sssd_oidc.Model.{Group}
use sssd_oidc.Config.{MappingConfig}
use sssd_oidc.Mapping.Range.{IsRange}
use sssd_oidc.Database.{Engine}
use sssd_oidc.Database.Rows.{IsUnique-upsert}
use sssd_oidc.Database.Unique.{clash_groups_symm}
use sssd_oidc.Database.{clash_groups}
use sssd_oidc.Cache.Updates.{store_group}
use sssd_oidc.Cache.StoreGroup.{row_of_group}
use sssd_oidc.Cache.GroupTable.{store_group-ok}
use sssd_oidc.Scim.{ScimGroup, Http, get_group_by_name}
use sssd_oidc.Service.{
  Service, max_name_len, scim_group_to_model, take_group, group_by_name, lookup_group_by_name,
  on_cache,
}
use sssd_oidc.Service.Calls.{on_cache-ok}
use sssd_oidc.Service.Converted.{group_model-ids}
use sssd_oidc.Service.GroupSlots.{IsGroupsSettled, IsGroupAt, written-AreAtSlots, written_own}
use sssd_oidc.Service.Invariant.{IsInvariant, group_model-same}
use sssd_oidc.Service.Methods.{Keeps-lookup_group_by_name}
use sssd_oidc.Service.SameGid.{TableAt, at_of, IsGroupAt-iff, IsGroupAt-IsInvariant}

module _ (engine : Engine) (murmur3_32 : Str → ℕ → Option ℕ) where
  -- Taking a group from SCIM converts it and stores it.
  take_group-ok :
      (scim_group : ScimGroup) (svc svc' : Service) (group : Group)
      → take_group engine murmur3_32 scim_group svc ≡ (ok group, svc')
      → ((scim_group_to_model engine murmur3_32 scim_group svc).0 ≡ ok group)
        × (store_group engine group svc.cache ≡ (ok tt, svc'.cache))
  unfolding take_group
  take_group-ok scim_group svc svc' group h =
      let (made, e, rest) = bind-ok (scim_group_to_model engine murmur3_32 scim_group) _ svc h in
      let mid = (scim_group_to_model engine murmur3_32 scim_group svc).1 in
      let (_, stored, same) = bind-ok (on_cache (store_group engine made)) _ mid rest in
      let made_group : made ≡ group = cc (same) in
      let left : (on_cache (store_group engine made) mid).1 ≡ svc' = ap (λ r. r.1) same in
      let kept =
        on_cache-ok (store_group engine made) mid svc' tt (stored ∙ (λ i. (ok tt, left i))) in
      (
        ap (λ r. r.0) e ∙ ap ok made_group,
        rw (← made_group) (
            subst (λ (s : Service). store_group engine made s.cache ≡ (ok tt, svc'.cache))
              (group_model-same engine murmur3_32 scim_group svc) kept),
      )

  module _ (server : Http) where
    taken_group :
        (name : Str) (svc svc' : Service) (scim_group : ScimGroup) (group : Group)
        → get_group_by_name server svc.scim name ≡ ok (some scim_group)
        → lookup_group_by_name engine murmur3_32 server name svc ≡ (ok (some group), svc')
        → take_group engine murmur3_32 scim_group svc ≡ (ok group, svc')
    unfolding lookup_group_by_name group_by_name
    taken_group name svc svc' scim_group group online h =
        elim (Bool-cases (ltb max_name_len (length name))) [
          | inl long ↦ cc (rw (long, lookup_group_by_name) at h)
          | inr named ↦
              bind_some-ok (take_group engine murmur3_32 scim_group) svc svc' group
                (rw (named, online, lookup_group_by_name) at h)
        ]

  -- The configuration stays.
  pub Configured-IsInvariant :
      (mapping : MappingConfig)
      → IsInvariant engine murmur3_32 (λ (s : Service). s.config.mapping ≡ mapping)
  Configured-IsInvariant mapping = record {
    stores_user = λ scim_user svc user made h. h;
    stores_group = λ scim_group svc group made h. h;
  }

module _ (murmur3_32 : Str → ℕ → Option ℕ) (mapping : MappingConfig)
    (range : IsRange mapping.gid_range_min mapping.gid_range_size) (engine : Engine) (server : Http)
    (name : Str) (svc svc' : Service) (scim_group : ScimGroup) (group : Group)
    (online : get_group_by_name server svc.scim name ≡ ok (some scim_group))
    (found : lookup_group_by_name engine murmur3_32 server name svc ≡ (ok (some group), svc')) where
  pub found-IsGroupAt :
      IsGroupsSettled murmur3_32 mapping svc
      → IsGroupAt murmur3_32 mapping scim_group.id group.gid svc'
  found-IsGroupAt settled =
      let (made, stored) =
        take_group-ok engine murmur3_32 scim_group svc svc' group
          (taken_group engine murmur3_32 server name svc svc' scim_group group online found) in
      let (_, same_id) =
        group_model-ids engine murmur3_32 scim_group svc _ group (with_final _ made) in
      let (now, written) = store_group-ok engine group svc.cache svc'.cache stored in
      let table : TableAt murmur3_32 mapping group.external_id group.gid svc'.cache.conn.gid_cache =
        subst (TableAt murmur3_32 mapping group.external_id group.gid) (sym written) (record {
          unique =
              IsUnique-upsert clash_groups clash_groups_symm (row_of_group now group)
                svc.cache.conn.gid_cache settled.unique;
          placed =
              written-AreAtSlots murmur3_32 mapping range engine scim_group svc group made settled
                now;
          owner = written_own murmur3_32 mapping range engine scim_group svc group made settled now;
        }) in
      subst (λ id. IsGroupAt murmur3_32 mapping id group.gid svc') same_id
        (at_of murmur3_32 mapping group.external_id group.gid svc'
          (subst (λ (s : Service). s.config.mapping ≡ mapping) (ap (λ r. r.1) found)
            ((Keeps-lookup_group_by_name (λ (s : Service). s.config.mapping ≡ mapping)
                (Configured-IsInvariant engine murmur3_32 mapping) server name).at
              svc settled.configured))
          table)

  -- If a group's external id was at a GID before, then it is the external id of the answer exactly if
  -- the GID is that of the answer.
  pub found_group_iff :
      (external_id : Str) (gid : ℕ)
      → IsGroupAt murmur3_32 mapping external_id gid svc
      → (scim_group.id ≡ external_id) ↔ (group.gid ≡ gid)
  found_group_iff external_id gid at =
      IsGroupAt-iff murmur3_32 mapping scim_group.id external_id group.gid gid svc'
        (found-IsGroupAt at.settled)
        (subst (IsGroupAt murmur3_32 mapping external_id gid) (ap (λ r. r.1) found) (
          (Keeps-lookup_group_by_name (IsGroupAt murmur3_32 mapping external_id gid)
              (IsGroupAt-IsInvariant murmur3_32 mapping range engine external_id gid) server
              name).at
            svc at))
