-- ===== src/Tests/ServiceTest.antt =====
-- Runs of src/service.rs.
use sssd_oidc.Prelude.{◌≤◌, ◌≡◌, refl, true, some, length, keep, []}
use sssd_oidc.Text.{ascii, replace}
use sssd_oidc.Outcome.{ok}
use sssd_oidc.Model.{User}
use sssd_oidc.Mapping.{resolve_id}
use sssd_oidc.Cache.Queries.{select, next_row, uid_owner, gid_owner, resolve_uid, resolve_gid}
use sssd_oidc.Cache.Updates.{run, execute, store_user}
use sssd_oidc.Scim.{fetch, get_request, get_user_by_name}
use sssd_oidc.Service.{
  max_name_len, gid_external, on_cache, read_cache, scim_user_to_model, take_user, user_by_name,
  user_active, lookup_user_by_name, check_user_active,
}
use sssd_oidc.Service.Access.{IsLetIn, check_user_active-true}
use sssd_oidc.Tests.Fixtures.{engine_at, hash_7}
use sssd_oidc.Tests.Server.{server, service, scim_alice}

abbrev pub made : User
made = record {
  external_id = ascii "a1";
  name = ascii "alice";
  uid = 1007;
  gid = 1007;
  gecos = [];
  home = ascii "/home/alice";
  shell = ascii "/bin/bash";
  active = true;
}

pub asked : get_user_by_name server service.scim (ascii "alice") ≡ ok (some scim_alice)
unfolding get_user_by_name fetch get_request
asked = refl

pub looked_up : lookup_user_by_name (engine_at 100) hash_7 server (ascii "alice") service ≡ (
  ok (some made),
  (lookup_user_by_name (engine_at 100) hash_7 server (ascii "alice") service).1,
)
unfolding lookup_user_by_name user_by_name take_user scim_user_to_model gid_external on_cache
    read_cache get_user_by_name fetch get_request resolve_uid resolve_gid uid_owner gid_owner
    next_row select resolve_id keep replace store_user execute run
looked_up = refl

active :
    check_user_active (engine_at 100) hash_7 server (ascii "alice") service
    ≡ (ok true, (check_user_active (engine_at 100) hash_7 server (ascii "alice") service).1)
unfolding check_user_active user_active take_user scim_user_to_model gid_external on_cache
    read_cache get_user_by_name fetch get_request resolve_uid resolve_gid uid_owner gid_owner
    next_row select resolve_id keep replace store_user execute run
active = refl

check_user_active-true_example :
    (length (ascii "alice") ≤ max_name_len)
    × IsLetIn (engine_at 100) hash_7 server (ascii "alice") service
check_user_active-true_example =
    check_user_active-true (engine_at 100) hash_7 server (ascii "alice") service
      (check_user_active (engine_at 100) hash_7 server (ascii "alice") service).1 active
