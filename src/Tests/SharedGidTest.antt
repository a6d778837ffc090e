-- ===== src/Tests/SharedGidTest.antt =====
-- Two users of src/service.rs whose external ids hash to a slot that a group holds.
use sssd_oidc.Prelude.{◌≡◌, ◌≢◌, refl, [], ◌∷◌, some, keep, inr}
use sssd_oidc.Text.{ascii, str_eq, str_eq_iff, replace}
use sssd_oidc.Outcome.{ok}
use sssd_oidc.Model.{User}
use sssd_oidc.Database.Rows.{upsert}
use sssd_oidc.Database.{GroupRow, run_replace_user}
use sssd_oidc.Cache.Queries.{select, next_row, uid_owner, gid_owner, resolve_uid, resolve_gid}
use sssd_oidc.Cache.Updates.{run, execute, store_user}
use sssd_oidc.Mapping.{resolve_id}
use sssd_oidc.Scim.{fetch, get_request, get_user_by_name, Http, ScimUser}
use sssd_oidc.Service.{
  Service, lookup_user_by_name, user_by_name, take_user, scim_user_to_model, gid_external, on_cache,
  read_cache,
}
use sssd_oidc.Service.SharedGid.{IsNotStored, lookup_user_by_name_shares_gid}
use sssd_oidc.Tests.Fixtures.{engine_at, hash_7, empty_cache, empty_db, IsRange-1000}
use sssd_oidc.Tests.Server.{server, service, scim_alice}
use sssd_oidc.Tests.ServiceTest.{made}

abbrev wheel_row : GroupRow
wheel_row = record { external_id = ascii "g7"; name = ascii "wheel"; gid = 1007; cached_at = 90 }

abbrev with_wheel : Service
with_wheel = record service {
  cache = record empty_cache { conn = record empty_db { gid_cache = wheel_row ∷ [] } };
}

abbrev scim_bob : ScimUser
scim_bob = record scim_alice { id = ascii "b1"; user_name = ascii "bob" }

abbrev with_bob : Http
with_bob = record server {
  read_users = λ body. inr (record { total_results = 1; resources = scim_bob ∷ [] });
}

-- The slot after that of the group.
abbrev alice : User
alice = record made { gid = 1008 }

abbrev bob : User
bob = record made {
  external_id = ascii "b1";
  name = ascii "bob";
  uid = 1008;
  gid = 1008;
  home = ascii "/home/bob";
}

abbrev later : Service
later = (lookup_user_by_name (engine_at 100) hash_7 server (ascii "alice") with_wheel).1

abbrev last : Service
last = (lookup_user_by_name (engine_at 110) hash_7 with_bob (ascii "bob") later).1

asked : get_user_by_name server with_wheel.scim (ascii "alice") ≡ ok (some scim_alice)
unfolding get_user_by_name fetch get_request
asked = refl

found :
    lookup_user_by_name (engine_at 100) hash_7 server (ascii "alice") with_wheel
    ≡ (ok (some alice), later)
unfolding lookup_user_by_name user_by_name take_user on_cache get_user_by_name fetch get_request
    scim_user_to_model gid_external read_cache resolve_uid resolve_gid uid_owner gid_owner next_row
    select resolve_id keep replace store_user execute run run_replace_user upsert str_eq
found = refl

asked_bob : get_user_by_name with_bob later.scim (ascii "bob") ≡ ok (some scim_bob)
unfolding lookup_user_by_name user_by_name take_user on_cache get_user_by_name fetch get_request
    scim_user_to_model gid_external read_cache resolve_uid resolve_gid uid_owner gid_owner next_row
    select resolve_id keep replace store_user execute run run_replace_user upsert str_eq
asked_bob = refl

found_bob :
    lookup_user_by_name (engine_at 110) hash_7 with_bob (ascii "bob") later ≡ (ok (some bob), last)
unfolding lookup_user_by_name user_by_name take_user on_cache get_user_by_name fetch get_request
    scim_user_to_model gid_external read_cache resolve_uid resolve_gid uid_owner gid_owner next_row
    select resolve_id keep replace store_user execute run run_replace_user upsert str_eq
found_bob = refl

other_than_alice : ascii "g7" ≢ ascii "a1"
unfolding str_eq
other_than_alice e = cc ((str_eq_iff (ascii "g7") (ascii "a1")).1 e)

other_than_bob : ascii "g7" ≢ ascii "b1"
unfolding str_eq
other_than_bob e = cc ((str_eq_iff (ascii "g7") (ascii "b1")).1 e)

not_alice : IsNotStored (wheel_row ∷ []) (gid_external scim_alice)
unfolding gid_external
not_alice = (other_than_alice, tt)

not_bob : IsNotStored (wheel_row ∷ []) (gid_external scim_bob)
unfolding gid_external
not_bob = (other_than_bob, tt)

lookup_user_by_name_shares_gid_example : alice.gid ≡ bob.gid
lookup_user_by_name_shares_gid_example =
    lookup_user_by_name_shares_gid hash_7 (engine_at 100) (engine_at 110) server with_bob
      (ascii "alice") (ascii "bob") with_wheel later last scim_alice scim_bob alice bob 7 7
      IsRange-1000 (tt, tt) not_alice not_bob refl refl refl asked found asked_bob found_bob
