-- ===== src/Tests/ListingTest.antt =====
-- Runs of `setpwent` of crates/nss_oidc on a directory of two users that hash to the same slot.
use sssd_oidc.Prelude.{◌≡◌, ◌↔◌, refl, true, [], ◌∷◌, Option, none, some, keep, inr, All}
use sssd_oidc.Text.{ascii, str_eq, replace}
use sssd_oidc.Outcome.{ok}
use sssd_oidc.Model.{User}
use sssd_oidc.Database.Rows.{upsert}
use sssd_oidc.Database.{run_replace_user}
use sssd_oidc.Cache.Placement.{IsPlaced}
use sssd_oidc.Cache.Slots.{AreAtSlots}
use sssd_oidc.Cache.Queries.{select, next_row, uid_owner, gid_owner, resolve_uid, resolve_gid}
use sssd_oidc.Cache.Updates.{run, execute, store_user}
use sssd_oidc.Mapping.{resolve_id}
use sssd_oidc.Scim.{
  fetch, get_request, get_user_by_name, list_users, paginate_list, pages, Http, ScimUser,
}
use sssd_oidc.Service.{
  lookup_user_by_name, user_by_name, take_user, scim_user_to_model, gid_external, on_cache,
  read_cache,
}
use sssd_oidc.Nss.{NssState, NssStatus, success, Call, returns, aborts}
use sssd_oidc.Nss.Enumeration.{UserEnum, lock, setpwent, set_users, keep_users, keep_user}
use sssd_oidc.Nss.Reachable.{start}
use sssd_oidc.Nss.ListingUids.{setpwent_same_uid, setpwent-lookup_user_by_name}
use sssd_oidc.Tests.Fixtures.{engine_at, hash_7, IsRange-1000}
use sssd_oidc.Tests.Server.{server, service, scim_alice}
use sssd_oidc.Tests.NssLookupTest.{state, as_is}
use sssd_oidc.Tests.ServiceTest.{made}

abbrev scim_bob : ScimUser
scim_bob = record scim_alice { id = ascii "b1"; user_name = ascii "bob" }

abbrev two : Http
two = record server {
  read_users = λ body. inr (record { total_results = 2; resources = scim_alice ∷ scim_bob ∷ [] });
}

-- What the directory answers to a filter by bob's name.
abbrev filtered : Http
filtered = record server {
  read_users = λ body. inr (record { total_results = 1; resources = scim_bob ∷ [] });
}

-- The next slot, since alice holds the first; the GIDs of users are not stored, so they collide.
abbrev made_bob : User
made_bob = record {
  external_id = ascii "b1";
  name = ascii "bob";
  uid = 1008;
  gid = 1007;
  gecos = [];
  home = ascii "/home/bob";
  shell = ascii "/bin/bash";
  active = true;
}

abbrev state_of : Call (NssStatus × UserEnum × Option NssState) → NssState
state_of (returns (status, enum_state, some s)) = s
state_of (returns (status, enum_state, none)) = state
state_of aborts = state

abbrev after : NssState
after = state_of (setpwent (engine_at 100) hash_7 two none (some state))

listed :
    setpwent (engine_at 100) hash_7 two none (some state)
    ≡ returns (success, some (made ∷ made_bob ∷ [], 0), some after)
unfolding setpwent set_users keep_users keep_user lock list_users paginate_list pages
    scim_user_to_model gid_external read_cache fetch get_request resolve_uid resolve_gid uid_owner
    gid_owner next_row select resolve_id keep replace store_user execute run run_replace_user upsert
    str_eq
listed = refl

empty-IsPlaced : IsPlaced hash_7 1000 10 service.cache.conn
unfolding IsPlaced AreAtSlots
empty-IsPlaced = tt

setpwent_same_uid_example :
    All
      (λ (u : User).
        All
          (λ (v : User). (u.external_id ≡ v.external_id) ↔ (u.uid ≡ v.uid))
          (made ∷ made_bob ∷ []))
      (made ∷ made_bob ∷ [])
setpwent_same_uid_example =
    setpwent_same_uid hash_7 (engine_at 100) two none (made ∷ made_bob ∷ []) 0 state after
      IsRange-1000 (λ user db. refl) tt empty-IsPlaced listed

asked : get_user_by_name filtered after.service.scim (ascii "bob") ≡ ok (some scim_bob)
unfolding get_user_by_name fetch get_request setpwent set_users keep_users keep_user lock list_users
    paginate_list pages scim_user_to_model gid_external read_cache resolve_uid resolve_gid uid_owner
    gid_owner next_row select resolve_id keep replace store_user execute run run_replace_user upsert
    str_eq
asked = refl

found : lookup_user_by_name (engine_at 120) hash_7 filtered (ascii "bob") after.service ≡ (
  ok (some made_bob),
  (lookup_user_by_name (engine_at 120) hash_7 filtered (ascii "bob") after.service).1,
)
unfolding lookup_user_by_name user_by_name take_user on_cache get_user_by_name fetch get_request
    setpwent set_users keep_users keep_user lock list_users paginate_list pages scim_user_to_model
    gid_external read_cache resolve_uid resolve_gid uid_owner gid_owner next_row select resolve_id
    keep replace store_user execute run run_replace_user upsert str_eq
found = refl

setpwent-lookup_user_by_name_example :
    All
      (λ (u : User). (scim_bob.id ≡ u.external_id) ↔ (made_bob.uid ≡ u.uid))
      (made ∷ made_bob ∷ [])
setpwent-lookup_user_by_name_example =
    setpwent-lookup_user_by_name hash_7 (engine_at 100) two none (made ∷ made_bob ∷ []) 0 state
      after IsRange-1000 (λ user db. refl) tt empty-IsPlaced listed as_is true (engine_at 120)
      filtered (ascii "bob") after
      (lookup_user_by_name (engine_at 120) hash_7 filtered (ascii "bob") after.service).1 scim_bob
      made_bob start asked found
