-- ===== src/Service/SameGid.antt =====
-- The external ids of groups and their GIDs, over the methods of src/service.rs.
use sssd_oidc.Prelude.{ℕ, ◌≡◌, ◌↔◌, true, Option, List, some}
use sssd_oidc.Text.{Str}
use sssd_oidc.Outcome.{ok}
use sssd_oidc.Model.{Group}
use sssd_oidc.Config.{MappingConfig}
use sssd_oidc.Mapping.Range.{IsRange}
use sssd_oidc.Database.Rows.{upsert, IsUnique, IsUnique-upsert}
use sssd_oidc.Database.Unique.{clash_groups_symm}
use sssd_oidc.Database.{GroupRow, Engine, clash_groups, run_replace_user}
use sssd_oidc.Cache.Slots.{AreAtSlots, tells, tells_iff}
use sssd_oidc.Cache.StoreGroup.{row_of_group}
use sssd_oidc.Cache.GroupTable.{store_group-at}
use sssd_oidc.Scim.{ScimGroup}
use sssd_oidc.Service.{Service, scim_group_to_model}
use sssd_oidc.Service.GroupSlots.{id_of, gid_of, IsGroupAt, written-AreAtSlots, written-owner}
use sssd_oidc.Service.Invariant.{IsInvariant}
use sssd_oidc.Service.StoredUser.{stored-cases}

module _ (murmur3_32 : Str → ℕ → Option ℕ) (mapping : MappingConfig) where
  abbrev Placed : List GroupRow → Type 0
  Placed = AreAtSlots id_of gid_of murmur3_32 mapping.gid_range_min mapping.gid_range_size

  -- What the table of groups has to be for the group's external id to be at the GID.
  pub record TableAt (external_id : Str) (gid : ℕ) (rows : List GroupRow) : Type 0 where
    pub unique : IsUnique clash_groups rows
    pub placed : Placed rows
    pub owner : tells id_of gid_of rows external_id gid ≡ ok (some true)

  table_of :
      (external_id : Str) (gid : ℕ) (svc : Service)
      → IsGroupAt murmur3_32 mapping external_id gid svc
      → TableAt external_id gid svc.cache.conn.gid_cache
  table_of external_id gid svc at = record {
    unique = at.settled.unique;
    placed = at.settled.placed;
    owner = at.owner;
  }

  pub at_of :
      (external_id : Str) (gid : ℕ) (svc : Service)
      → svc.config.mapping ≡ mapping
      → TableAt external_id gid svc.cache.conn.gid_cache
      → IsGroupAt murmur3_32 mapping external_id gid svc
  at_of external_id gid svc configured table = record {
    settled = record { configured = configured; unique = table.unique; placed = table.placed };
    owner = table.owner;
  }

  pub IsGroupAt-iff :
      (external_id external_id' : Str) (gid gid' : ℕ) (svc : Service)
      → IsGroupAt murmur3_32 mapping external_id gid svc
      → IsGroupAt murmur3_32 mapping external_id' gid' svc
      → (external_id ≡ external_id') ↔ (gid ≡ gid')
  IsGroupAt-iff external_id external_id' gid gid' svc at at' =
      tells_iff id_of gid_of murmur3_32 mapping.gid_range_min mapping.gid_range_size
        svc.cache.conn.gid_cache external_id external_id' gid gid' at.settled.placed at.owner
        at'.owner

  module _ (range : IsRange mapping.gid_range_min mapping.gid_range_size) (engine : Engine) where
    -- The group's row, where it is written.
    written-TableAt :
        (scim_group : ScimGroup) (svc : Service) (group : Group) (external_id : Str) (gid : ℕ)
        → (scim_group_to_model engine murmur3_32 scim_group svc).0 ≡ ok group
        → IsGroupAt murmur3_32 mapping external_id gid svc
        → (now : ℕ)
        → TableAt external_id gid
            (upsert clash_groups (row_of_group now group) svc.cache.conn.gid_cache)
    written-TableAt scim_group svc group external_id gid made at now = record {
      unique =
          IsUnique-upsert clash_groups clash_groups_symm (row_of_group now group)
            svc.cache.conn.gid_cache at.settled.unique;
      placed =
          written-AreAtSlots murmur3_32 mapping range engine scim_group svc group made at.settled
            now;
      owner =
          written-owner murmur3_32 mapping range engine scim_group svc group made at.settled now
            external_id gid at.owner;
    }

    -- Users leave the table of groups.
    pub IsGroupAt-IsInvariant :
        (external_id : Str) (gid : ℕ)
        → IsInvariant engine murmur3_32 (IsGroupAt murmur3_32 mapping external_id gid)
    unfolding run_replace_user
    IsGroupAt-IsInvariant external_id gid = record {
      stores_user = λ scim_user svc user made at.
          stored-cases engine (IsGroupAt murmur3_32 mapping external_id gid) user svc at (λ now.
            at_of external_id gid
              (record svc {
                cache = record svc.cache { conn = run_replace_user now user svc.cache.conn };
              })
              at.settled.configured (table_of external_id gid svc at));
      stores_group = λ scim_group svc group made at. at_of external_id gid _ at.settled.configured (
          store_group-at engine (TableAt external_id gid) group svc.cache
            (written-TableAt scim_group svc group external_id gid made at)
            (table_of external_id gid svc at));
    }
