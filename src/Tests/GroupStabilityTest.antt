-- ===== src/Tests/GroupStabilityTest.antt =====
-- Runs of the group lookups of crates/nss_oidc: two groups that hash to the same slot.
use sssd_oidc.Prelude.{◌≡◌, ◌↔◌, refl, true, [], ◌∷◌, some, keep, any, inr}
use sssd_oidc.Text.{ascii, str_eq}
use sssd_oidc.Outcome.{ok}
use sssd_oidc.Model.{Group}
use sssd_oidc.Database.Rows.{upsert}
use sssd_oidc.Database.{
  run_replace_group, run_delete_group_members, run_insert_group_member, without_groups,
}
use sssd_oidc.Cache.Slots.{AreAtSlots}
use sssd_oidc.Cache.Queries.{select, next_row, gid_owner, resolve_gid}
use sssd_oidc.Cache.Updates.{run, execute, insert_members, store_group}
use sssd_oidc.Mapping.{resolve_id}
use sssd_oidc.Scim.{fetch, get_request, get_group_by_name, Http, ScimGroup}
use sssd_oidc.Service.{
  Service, lookup_group_by_name, group_by_name, take_group, scim_group_to_model, member_names,
  on_cache, read_cache,
}
use sssd_oidc.Service.GroupSlots.{id_of, gid_of}
use sssd_oidc.Nss.{NssState}
use sssd_oidc.Nss.Enumeration.{lock}
use sssd_oidc.Nss.GroupBuffer.{group_by_c_name}
use sssd_oidc.Nss.Reachable.{Reachable, start, call, getgrnam}
use sssd_oidc.Nss.GroupStability.{lookup_group_by_name_same_gid}
use sssd_oidc.Tests.Fixtures.{engine_at, hash_7, IsRange-1000}
use sssd_oidc.Tests.Server.{server, service}
use sssd_oidc.Tests.NssLookupTest.{state, as_is}

abbrev scim_staff : ScimGroup
scim_staff = record { id = ascii "g1"; display_name = ascii "staff"; members = [] }

abbrev scim_ops : ScimGroup
scim_ops = record { id = ascii "g2"; display_name = ascii "ops"; members = [] }

abbrev answering : ScimGroup → Http
answering group = record server {
  read_groups = λ body. inr (record { total_results = 1; resources = group ∷ [] });
}

abbrev made_staff : Group
made_staff = record { external_id = ascii "g1"; name = ascii "staff"; gid = 1007; members = [] }

abbrev made_ops : Group
made_ops = record { external_id = ascii "g2"; name = ascii "ops"; gid = 1008; members = [] }

abbrev found : Service
found =
    (lookup_group_by_name (engine_at 100) hash_7 (answering scim_staff) (ascii "staff") service).1

looked_up :
    lookup_group_by_name (engine_at 100) hash_7 (answering scim_staff) (ascii "staff") service
    ≡ (ok (some made_staff), found)
unfolding lookup_group_by_name group_by_name take_group scim_group_to_model member_names on_cache
    read_cache get_group_by_name fetch get_request resolve_gid gid_owner next_row select resolve_id
    keep any store_group insert_members execute run
looked_up = refl

asked : get_group_by_name (answering scim_staff) service.scim (ascii "staff") ≡ ok (some scim_staff)
unfolding get_group_by_name fetch get_request
asked = refl

abbrev first : NssState
first = record state { service = found }

abbrev later : NssState
later = record first {
  service =
      (lookup_group_by_name (engine_at 110) hash_7 (answering scim_staff) (ascii "staff") found).1;
}

reached : Reachable hash_7 as_is true (some first) (some later)
unfolding group_by_c_name lock
reached = call (engine_at 110) (answering scim_staff) refl start (getgrnam (ascii "staff") 64 10 [])

asked_other :
    get_group_by_name (answering scim_ops) later.service.scim (ascii "ops") ≡ ok (some scim_ops)
unfolding get_group_by_name fetch get_request
asked_other = refl

looked_up_other :
    lookup_group_by_name (engine_at 120) hash_7 (answering scim_ops) (ascii "ops") later.service ≡ (
      ok (some made_ops),
      (lookup_group_by_name
          (engine_at 120)
          hash_7
          (answering scim_ops)
          (ascii "ops")
          later.service).1,
    )
unfolding lookup_group_by_name group_by_name take_group scim_group_to_model member_names on_cache
    read_cache get_group_by_name fetch get_request resolve_gid gid_owner next_row select resolve_id
    keep any store_group insert_members execute run run_replace_group run_delete_group_members
    run_insert_group_member without_groups upsert str_eq
looked_up_other = refl

empty-AreAtSlots : AreAtSlots id_of gid_of hash_7 1000 10 []
unfolding AreAtSlots
empty-AreAtSlots = tt

lookup_group_by_name_same_gid_example :
    (scim_ops.id ≡ scim_staff.id) ↔ (made_ops.gid ≡ made_staff.gid)
lookup_group_by_name_same_gid_example =
    lookup_group_by_name_same_gid hash_7 as_is true (engine_at 100) (engine_at 120)
      (answering scim_staff) (answering scim_ops) (ascii "staff") (ascii "ops") scim_staff scim_ops
      made_staff made_ops state later found
      (lookup_group_by_name (engine_at 120) hash_7 (answering scim_ops) (ascii "ops")
        later.service).1
      IsRange-1000 tt empty-AreAtSlots asked looked_up reached asked_other looked_up_other
