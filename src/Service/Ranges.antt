-- ===== src/Service/Ranges.antt =====
-- The configured ranges of ids, over the methods of src/service.rs.
use sssd_oidc.Prelude.{ℕ, ◌≡◌, refl, sym, subst, Option, All}
use sssd_oidc.Text.{Str}
use sssd_oidc.Outcome.{ok}
use sssd_oidc.Exec.Success.{with_final}
use sssd_oidc.Model.{User, Group}
use sssd_oidc.Config.{MappingConfig}
use sssd_oidc.Mapping.Range.{IsRange}
use sssd_oidc.Database.Rows.{All-upsert}
use sssd_oidc.Database.{UserRow, GroupRow, Db, Engine, clash_users, clash_groups, run_replace_user}
use sssd_oidc.Service.StoredUser.{stored-cases}
use sssd_oidc.Cache.RoundTrip.{row_of_user}
use sssd_oidc.Cache.UserTable
use sssd_oidc.Cache.GroupTable
use sssd_oidc.Cache.StoreGroup.{row_of_group}
use sssd_oidc.Scim.{ScimUser, ScimGroup}
use sssd_oidc.Service.{Service, scim_user_to_model, scim_group_to_model, gid_external}
use sssd_oidc.Service.Converted.{
  IsInRange, model-ids, group_model-ids, resolve_uid-IsInRange, resolve_gid-IsInRange,
}
use sssd_oidc.Service.Invariant.{IsInvariant, with_user, with_group}

-- Both ranges, of a configuration that fits.
pub record HasRanges (mapping : MappingConfig) : Type 0 where
  pub uids : IsRange mapping.uid_range_min mapping.uid_range_size
  pub gids : IsRange mapping.gid_range_min mapping.gid_range_size

module _ (mapping : MappingConfig) where
  abbrev pub IsUserIn : UserRow → Type 0
  IsUserIn r =
      IsInRange mapping.uid_range_min mapping.uid_range_size r.uid
      × IsInRange mapping.gid_range_min mapping.gid_range_size r.gid

  abbrev pub IsGroupIn : GroupRow → Type 0
  IsGroupIn r = IsInRange mapping.gid_range_min mapping.gid_range_size r.gid

  -- Every id in the tables of users and groups lies in its range.
  abbrev pub AreInRanges : Db → Type 0
  AreInRanges db = All IsUserIn db.uid_cache × All IsGroupIn db.gid_cache

  pub record IsWithin (svc : Service) : Type 0 where
    pub configured : svc.config.mapping ≡ mapping
    pub inside : AreInRanges svc.cache.conn

  module _ (murmur3_32 : Str → ℕ → Option ℕ) (ranges : HasRanges mapping) (engine : Engine) where
    user_in :
        (scim_user : ScimUser) (svc : Service) (user : User) (now : ℕ)
        → (scim_user_to_model engine murmur3_32 scim_user svc).0 ≡ ok user
        → svc.config.mapping ≡ mapping
        → IsUserIn (row_of_user now user)
    user_in scim_user svc user now h configured =
        let (chosen, chosen', _) =
          model-ids engine murmur3_32 scim_user svc _ user (with_final _ h) in
        (
          resolve_uid-IsInRange engine murmur3_32 svc.cache scim_user.id mapping.uid_range_min
              mapping.uid_range_size user.uid ranges.uids (rw (← configured) chosen),
          resolve_gid-IsInRange engine murmur3_32 svc.cache (gid_external scim_user)
              mapping.gid_range_min mapping.gid_range_size user.gid ranges.gids
              (rw (← configured) chosen'),
        )

    stores_user :
        (scim_user : ScimUser) (svc : Service) (user : User)
        → (scim_user_to_model engine murmur3_32 scim_user svc).0 ≡ ok user
        → IsWithin svc
        → IsWithin (with_user engine user svc)
    unfolding run_replace_user
    stores_user scim_user svc user h within = stored-cases engine IsWithin user svc within (λ now.
        record {
          configured = within.configured;
          inside = (
            All-upsert IsUserIn clash_users (row_of_user now user) svc.cache.conn.uid_cache
                (user_in scim_user svc user now h within.configured) within.inside.0,
            within.inside.1,
          );
        })

    stores_group :
        (scim_group : ScimGroup) (svc : Service) (group : Group)
        → (scim_group_to_model engine murmur3_32 scim_group svc).0 ≡ ok group
        → IsWithin svc
        → IsWithin (with_group engine group svc)
    stores_group scim_group svc group h within =
        let (chosen, _) =
          group_model-ids engine murmur3_32 scim_group svc _ group (with_final _ h) in
        let gid_in =
          resolve_gid-IsInRange engine murmur3_32 svc.cache scim_group.id mapping.gid_range_min
            mapping.gid_range_size group.gid ranges.gids (rw (← within.configured) chosen) in
        let same =
          (UserTable.Keeps-store_group engine svc.cache.conn.uid_cache group).at svc.cache refl in
        record {
          configured = within.configured;
          inside = (
            subst (All IsUserIn) (sym same) within.inside.0,
            GroupTable.store_group-at engine (All IsGroupIn) group svc.cache
                (λ now.
                  All-upsert IsGroupIn clash_groups (row_of_group now group)
                    svc.cache.conn.gid_cache gid_in within.inside.1)
                within.inside.1,
          );
        }

    pub IsWithin-IsInvariant : IsInvariant engine murmur3_32 IsWithin
    IsWithin-IsInvariant = record { stores_user = stores_user; stores_group = stores_group }
