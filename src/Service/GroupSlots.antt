-- ===== src/Service/GroupSlots.antt =====
-- `resolve_gid` of src/cache.rs and the table of groups, when src/service.rs converts a group and
-- its row is written.
use sssd_oidc.Prelude.{
  ℕ, ◌≡◌, refl, sym, ◌∙◌, Bool, List, true, false, Option, none, some, inl, inr, Option-cases,
}
use sssd_oidc.Text.{Str}
use sssd_oidc.Outcome.{Outcome, ok, err}
use sssd_oidc.Exec.Success.{with_final}
use sssd_oidc.Model.{Group}
use sssd_oidc.Config.{MappingConfig}
use sssd_oidc.Mapping.{resolve_id, id_to_uid}
use sssd_oidc.Mapping.Range.{IsRange}
use sssd_oidc.Mapping.Probing.{IsFirst, resolve_id-IsFirst_iff}
use sssd_oidc.Mapping.First.{IsFirst-map}
use sssd_oidc.Database.Rows.{upsert, IsUnique}
use sssd_oidc.Database.{GroupRow, Engine, clash_groups, select_gid_owner}
use sssd_oidc.Cache.State.{Cache, CacheError, sqlite, cache_error_from_exhausted}
use sssd_oidc.Cache.Queries.{gid_owner, resolve_gid}
use sssd_oidc.Cache.Select.{next_row_nil, next_row_single, next_row_fails}
use sssd_oidc.Cache.StoreGroup.{row_of_group}
use sssd_oidc.Cache.Slots.{
  AreAtSlots, held_by, holding, tells, tells-after, tells-own, upsert-AreAtSlots,
}
use sssd_oidc.Scim.{ScimGroup}
use sssd_oidc.Service.{Service, scim_group_to_model}
use sssd_oidc.Service.Converted.{group_model-ids}

abbrev pub id_of : GroupRow → Str
id_of r = r.external_id

abbrev pub gid_of : GroupRow → ℕ
gid_of r = r.gid

abbrev pub tells_gid : Cache → Str → ℕ → Outcome CacheError (Option Bool)
tells_gid cache = tells id_of gid_of cache.conn.gid_cache

-- A read that has worked has told the truth.
gid_owner-tells :
    (engine : Engine) (cache : Cache) (gid : ℕ) (external_id : Str) (held : Option Bool)
    → IsUnique clash_groups cache.conn.gid_cache
    → gid_owner engine cache gid external_id ≡ ok held
    → tells_gid cache external_id gid ≡ ok held
unfolding gid_owner held_by
gid_owner-tells engine cache gid external_id held unique h =
    let statement = select_gid_owner gid in
    elim (Option-cases (engine.fault statement cache.conn)) [
      | inr (x, e) ↦
          let fails : gid_owner engine cache gid external_id ≡ err (sqlite x) =
            rw (next_row_fails engine statement cache.conn x _ e) refl in
          cc (fails, h)
      | inl works ↦
          sym (elim (holding id_of gid_of cache.conn.gid_cache gid unique) [
            | inl e ↦ rw (e, next_row_nil engine statement cache.conn works)
            | inr (r, e, _) ↦ rw (e, next_row_single engine statement cache.conn r works)
          ])
          ∙ h
    ]

pub resolve_gid-IsFirst :
    (engine : Engine) (murmur3_32 : Str → ℕ → Option ℕ) (cache : Cache) (external_id : Str)
    (range_min range_size gid : ℕ)
    → IsRange range_min range_size
    → IsUnique clash_groups cache.conn.gid_cache
    → resolve_gid engine murmur3_32 cache external_id range_min range_size ≡ ok gid
    → (hash : ℕ) × (murmur3_32 external_id 0 ≡ some hash)
      × IsFirst range_min range_size hash (tells_gid cache external_id) 0 gid
unfolding resolve_gid resolve_id id_to_uid
resolve_gid-IsFirst engine murmur3_32 cache external_id range_min range_size gid range unique h =
    elim (Option-cases (murmur3_32 external_id 0)) [
      | inl e ↦ cc (rw (e, resolve_gid) at h)
      | inr (hash, e) ↦
          let f =
            (resolve_id-IsFirst_iff murmur3_32 range external_id hash e
                (λ c. gid_owner engine cache c external_id) gid).0
              h in
          (
            hash,
            e,
            IsFirst-map (tells_gid cache external_id) gid f
                (elim f.accepted [
                  | inl a ↦ inl (gid_owner-tells engine cache gid external_id none unique a)
                  | inr a ↦ inr (gid_owner-tells engine cache gid external_id (some true) unique a)
                ])
                (λ c. gid_owner-tells engine cache c external_id (some false) unique),
          )
    ]

module _ (murmur3_32 : Str → ℕ → Option ℕ) (mapping : MappingConfig) where
  -- Every group at its slot.
  pub record IsGroupsSettled (svc : Service) : Type 0 where
    pub configured : svc.config.mapping ≡ mapping
    pub unique : IsUnique clash_groups svc.cache.conn.gid_cache
    pub placed :
        AreAtSlots id_of gid_of murmur3_32 mapping.gid_range_min mapping.gid_range_size
          svc.cache.conn.gid_cache

  -- And the external id at the GID.
  pub record IsGroupAt (external_id : Str) (gid : ℕ) (svc : Service) : Type 0 where
    pub settled : IsGroupsSettled svc
    pub owner : tells_gid svc.cache external_id gid ≡ ok (some true)

  module _ (range : IsRange mapping.gid_range_min mapping.gid_range_size) (engine : Engine)
      (scim_group : ScimGroup) (svc : Service) (group : Group)
      (made : (scim_group_to_model engine murmur3_32 scim_group svc).0 ≡ ok group)
      (settled : IsGroupsSettled svc) (now : ℕ) where
    abbrev rows : List GroupRow
    rows = svc.cache.conn.gid_cache

    abbrev row : GroupRow
    row = row_of_group now group

    group-IsFirst :
        (hash : ℕ) × (murmur3_32 group.external_id 0 ≡ some hash)
        × IsFirst mapping.gid_range_min mapping.gid_range_size hash
            (tells_gid svc.cache group.external_id)
            0
            group.gid
    group-IsFirst =
        let (chosen, same_id) =
          group_model-ids engine murmur3_32 scim_group svc _ group (with_final _ made) in
        resolve_gid-IsFirst engine murmur3_32 svc.cache group.external_id _ _ group.gid range
          settled.unique (rw (← settled.configured, same_id) chosen)

    pub written-AreAtSlots :
        AreAtSlots id_of gid_of murmur3_32 mapping.gid_range_min mapping.gid_range_size
          (upsert clash_groups row rows)
    written-AreAtSlots =
        let (hash, hashed, chosen) = group-IsFirst in
        upsert-AreAtSlots id_of gid_of murmur3_32 mapping.gid_range_min mapping.gid_range_size row
          rows settled.unique settled.placed hash hashed chosen

    pub written-owner :
        (external_id : Str) (gid : ℕ)
        → tells id_of gid_of rows external_id gid ≡ ok (some true)
        → tells id_of gid_of (upsert clash_groups row rows) external_id gid ≡ ok (some true)
    written-owner external_id gid owner =
        let (hash, hashed, chosen) = group-IsFirst in
        tells-after id_of gid_of murmur3_32 mapping.gid_range_min mapping.gid_range_size row rows
          settled.unique settled.placed hash hashed chosen external_id gid true owner

    pub written_own :
        tells id_of gid_of (upsert clash_groups row rows) group.external_id group.gid
        ≡ ok (some true)
    written_own =
        let (hash, hashed, chosen) = group-IsFirst in
        tells-own id_of gid_of murmur3_32 mapping.gid_range_min mapping.gid_range_size row rows
          settled.unique settled.placed hash hashed chosen
