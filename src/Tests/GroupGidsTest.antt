-- ===== src/Tests/GroupGidsTest.antt =====
-- Runs of `setgrent` of crates/nss_oidc on a directory of two groups that hash to the same slot, one of
-- which has two members of one name.
use sssd_oidc.Prelude.{◌≡◌, ◌↔◌, refl, true, [], ◌∷◌, Option, none, some, keep, any, inr, All}
use sssd_oidc.Text.{ascii, str_eq}
use sssd_oidc.Outcome.{ok}
use sssd_oidc.Model.{Group}
use sssd_oidc.Database.Rows.{upsert}
use sssd_oidc.Database.{
  run_replace_group, run_delete_group_members, run_insert_group_member, without_groups,
}
use sssd_oidc.Cache.Slots.{AreAtSlots}
use sssd_oidc.Cache.Queries.{select, next_row, gid_owner, resolve_gid}
use sssd_oidc.Cache.Updates.{run, execute, insert_members, store_group}
use sssd_oidc.Mapping.{resolve_id}
use sssd_oidc.Scim.{
  fetch, get_request, get_group_by_name, list_groups, paginate_list, pages, Http, ScimGroup,
}
use sssd_oidc.Service.{
  lookup_group_by_name, group_by_name, take_group, scim_group_to_model, member_names, on_cache,
  read_cache,
}
use sssd_oidc.Service.GroupSlots.{id_of, gid_of}
use sssd_oidc.Nss.{NssState, NssStatus, success, Call, returns, aborts}
use sssd_oidc.Nss.Enumeration.{lock}
use sssd_oidc.Nss.GroupBuffer.{GroupEnum}
use sssd_oidc.Nss.GroupEnumeration.{setgrent, set_groups, keep_groups, keep_group}
use sssd_oidc.Nss.Reachable.{start}
use sssd_oidc.Nss.GroupListingGids.{setgrent_same_gid, setgrent-lookup_group_by_name}
use sssd_oidc.Tests.Fixtures.{engine_at, hash_7, IsRange-1000}
use sssd_oidc.Tests.Server.{server, service}
use sssd_oidc.Tests.NssLookupTest.{state, as_is}

-- The second member's row violates the key, so the write fails after the group's row.
abbrev scim_wheel : ScimGroup
scim_wheel = record {
  id = ascii "g1";
  display_name = ascii "w";
  members =
      record { value = ascii "a1"; display = some (ascii "a") }
      ∷ record { value = ascii "a2"; display = some (ascii "a") }
      ∷ [];
}

abbrev scim_ops : ScimGroup
scim_ops = record { id = ascii "g2"; display_name = ascii "ops"; members = [] }

abbrev two : Http
two = record server {
  read_groups = λ body. inr (record { total_results = 2; resources = scim_wheel ∷ scim_ops ∷ [] });
}

-- What the directory answers to a filter by the name of the second group.
abbrev filtered : Http
filtered = record server {
  read_groups = λ body. inr (record { total_results = 1; resources = scim_ops ∷ [] });
}

abbrev wheel : Group
wheel = record {
  external_id = ascii "g1";
  name = ascii "w";
  gid = 1007;
  members = ascii "a" ∷ ascii "a" ∷ [];
}

abbrev ops : Group
ops = record { external_id = ascii "g2"; name = ascii "ops"; gid = 1008; members = [] }

abbrev state_of : Call (NssStatus × GroupEnum × Option NssState) → NssState
state_of (returns (status, enum_state, some s)) = s
state_of (returns (status, enum_state, none)) = state
state_of aborts = state

abbrev after : NssState
after = state_of (setgrent (engine_at 100) hash_7 two none (some state))

listed :
    setgrent (engine_at 100) hash_7 two none (some state)
    ≡ returns (success, some (wheel ∷ ops ∷ [], 0), some after)
unfolding setgrent set_groups keep_groups keep_group lock list_groups paginate_list pages
    scim_group_to_model member_names read_cache fetch get_request resolve_gid gid_owner next_row
    select resolve_id keep any store_group insert_members execute run run_replace_group
    run_delete_group_members run_insert_group_member without_groups upsert str_eq
listed = refl

empty-AreAtSlots : AreAtSlots id_of gid_of hash_7 1000 10 service.cache.conn.gid_cache
unfolding AreAtSlots
empty-AreAtSlots = tt

setgrent_same_gid_example :
    All
      (λ (g : Group).
        All (λ (k : Group). (g.external_id ≡ k.external_id) ↔ (g.gid ≡ k.gid)) (wheel ∷ ops ∷ []))
      (wheel ∷ ops ∷ [])
setgrent_same_gid_example =
    setgrent_same_gid hash_7 (engine_at 100) two none (wheel ∷ ops ∷ []) 0 state after IsRange-1000
      (λ group db. refl) tt empty-AreAtSlots listed

asked : get_group_by_name filtered after.service.scim (ascii "ops") ≡ ok (some scim_ops)
unfolding get_group_by_name setgrent set_groups keep_groups keep_group lock list_groups
    paginate_list pages scim_group_to_model member_names read_cache fetch get_request resolve_gid
    gid_owner next_row select resolve_id keep any store_group insert_members execute run
    run_replace_group run_delete_group_members run_insert_group_member without_groups upsert str_eq
asked = refl

found : lookup_group_by_name (engine_at 120) hash_7 filtered (ascii "ops") after.service ≡ (
  ok (some ops),
  (lookup_group_by_name (engine_at 120) hash_7 filtered (ascii "ops") after.service).1,
)
unfolding lookup_group_by_name group_by_name take_group on_cache get_group_by_name setgrent
    set_groups keep_groups keep_group lock list_groups paginate_list pages scim_group_to_model
    member_names read_cache fetch get_request resolve_gid gid_owner next_row select resolve_id keep
    any store_group insert_members execute run run_replace_group run_delete_group_members
    run_insert_group_member without_groups upsert str_eq
found = refl

setgrent-lookup_group_by_name_example :
    All (λ (g : Group). (scim_ops.id ≡ g.external_id) ↔ (ops.gid ≡ g.gid)) (wheel ∷ ops ∷ [])
setgrent-lookup_group_by_name_example =
    setgrent-lookup_group_by_name hash_7 (engine_at 100) two none (wheel ∷ ops ∷ []) 0 state after
      IsRange-1000 (λ group db. refl) tt empty-AreAtSlots listed as_is true (engine_at 120) filtered
      (ascii "ops") after
      (lookup_group_by_name (engine_at 120) hash_7 filtered (ascii "ops") after.service).1 scim_ops
      ops start asked found
