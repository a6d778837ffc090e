-- ===== src/Tests/StabilityTest.antt =====
-- Runs of crates/nss_oidc on a cache with a user, whose slot the next user's external id hashes to.
use sssd_oidc.Prelude.{◌≡◌, ◌↔◌, ◌==◌, refl, true, [], ◌∷◌, some, keep, arith, inr}
use sssd_oidc.Text.{ascii, str_eq, replace}
use sssd_oidc.Outcome.{ok}
use sssd_oidc.Database.Rows.{upsert}
use sssd_oidc.Database.{UserRow, Db, run_replace_user}
use sssd_oidc.Cache.Holder.{holder}
use sssd_oidc.Cache.Placement.{IsPlaced}
use sssd_oidc.Cache.Slots.{AreAtSlots, held_by}
use sssd_oidc.Cache.Queries.{
  get_user_by_uid, select, next_row, uid_owner, gid_owner, resolve_uid, resolve_gid,
}
use sssd_oidc.Cache.Updates.{run, execute, store_user}
use sssd_oidc.Mapping.{resolve_id}
use sssd_oidc.Scim.{fetch, get_request, get_user_by_name}
use sssd_oidc.Service.{
  Service, lookup_user_by_name, lookup_user_by_uid, user_by_name, take_user, scim_user_to_model,
  gid_external, on_cache, read_cache,
}
use sssd_oidc.Service.Placement.{owns}
use sssd_oidc.Service.Ranges.{HasRanges, AreInRanges}
use sssd_oidc.Nss.{NssState}
use sssd_oidc.Nss.Enumeration.{lock, by_name}
use sssd_oidc.Nss.Reachable.{Reachable, start, call, getpwnam}
use sssd_oidc.Nss.Stability.{
  Reachable-owns, Reachable-AreInRanges, lookup_user_by_name_same_uid, lookup_user_by_uid_same_id,
}
use sssd_oidc.Tests.Fixtures.{engine_at, hash_7, IsRange-1000}
use sssd_oidc.Tests.Server.{server, config, service, scim_alice}
use sssd_oidc.Tests.NssLookupTest.{state, as_is}
use sssd_oidc.Tests.ServiceTest.{made, asked, looked_up}

abbrev bob_row : UserRow
bob_row = record {
  external_id = ascii "b1";
  login = ascii "bob";
  uid = 1007;
  gecos = [];
  home = ascii "/home/bob";
  shell = ascii "/bin/bash";
  gid = 1002;
  active = true;
  cached_at = 90;
}

abbrev with_bob : Db
with_bob = record { uid_cache = bob_row ∷ []; gid_cache = []; group_members = [] }

abbrev before : NssState
before = record state {
  service = record service { cache = record { conn = with_bob; ttl_seconds = 60 } };
}

abbrev after : NssState
after = record before {
  service = (lookup_user_by_name (engine_at 100) hash_7 server (ascii "alice") before.service).1;
}

reached : Reachable hash_7 as_is true (some before) (some after)
unfolding by_name lock
reached = call (engine_at 100) server refl start (getpwnam (ascii "alice") 10 [])

with_bob-IsPlaced : IsPlaced hash_7 1000 10 with_bob
unfolding IsPlaced AreAtSlots held_by keep str_eq
with_bob-IsPlaced = (
  (
    7,
    refl,
    record {
      round = 0;
      after = omega arith;
      in_time = omega arith;
      here = refl;
      accepted = inr refl;
      passed = λ j p q. absurd (omega arith);
    },
  ),
  tt,
)

bob_owns : owns with_bob (ascii "b1") 1007 ≡ true
unfolding owns holder keep str_eq
bob_owns = refl

Reachable-owns_example : owns after.service.cache.conn (ascii "b1") 1008 ≡ (1008 == 1007)
Reachable-owns_example =
    Reachable-owns hash_7 as_is true before after reached IsRange-1000 (tt, tt) with_bob-IsPlaced
      (ascii "b1") 1007 1008 bob_owns

ranges : HasRanges config.mapping
ranges = record { uids = IsRange-1000; gids = IsRange-1000 }

Reachable-AreInRanges_example : AreInRanges config.mapping after.service.cache.conn
Reachable-AreInRanges_example =
    Reachable-AreInRanges hash_7 as_is true before after reached ranges
      ((((omega arith, omega arith), (omega arith, omega arith)), tt), tt)

-- Two lookups of alice, and one between them.
abbrev found : Service
found = (lookup_user_by_name (engine_at 100) hash_7 server (ascii "alice") service).1

abbrev first : NssState
first = record state { service = found }

abbrev later : NssState
later = record first {
  service = (lookup_user_by_name (engine_at 110) hash_7 server (ascii "alice") found).1;
}

reached_later : Reachable hash_7 as_is true (some first) (some later)
unfolding by_name lock
reached_later = call (engine_at 110) server refl start (getpwnam (ascii "alice") 10 [])

looked_up_again :
    lookup_user_by_name (engine_at 120) hash_7 server (ascii "alice") later.service ≡ (
      ok (some made),
      (lookup_user_by_name (engine_at 120) hash_7 server (ascii "alice") later.service).1,
    )
unfolding lookup_user_by_name user_by_name take_user scim_user_to_model gid_external on_cache
    read_cache get_user_by_name fetch get_request resolve_uid resolve_gid uid_owner gid_owner
    next_row select resolve_id keep replace store_user execute run run_replace_user upsert str_eq
looked_up_again = refl

asked_again : get_user_by_name server later.service.scim (ascii "alice") ≡ ok (some scim_alice)
unfolding get_user_by_name fetch get_request
asked_again = refl

empty-IsPlaced : IsPlaced hash_7 1000 10 service.cache.conn
unfolding IsPlaced AreAtSlots
empty-IsPlaced = tt

lookup_user_by_name_same_uid_example : (scim_alice.id ≡ scim_alice.id) ↔ (made.uid ≡ made.uid)
lookup_user_by_name_same_uid_example =
    lookup_user_by_name_same_uid hash_7 as_is true (engine_at 100) server (ascii "alice") scim_alice
      made state later found IsRange-1000 tt empty-IsPlaced asked looked_up reached_later
      (engine_at 120) server (ascii "alice") scim_alice made
      (lookup_user_by_name (engine_at 120) hash_7 server (ascii "alice") later.service).1
      asked_again looked_up_again

by_uid :
    lookup_user_by_uid (engine_at 120) hash_7 1007 later.service ≡ (ok (some made), later.service)
unfolding lookup_user_by_uid get_user_by_uid lookup_user_by_name user_by_name take_user
    scim_user_to_model gid_external on_cache read_cache get_user_by_name fetch get_request
    resolve_uid resolve_gid uid_owner gid_owner next_row select resolve_id keep replace store_user
    execute run run_replace_user upsert str_eq
by_uid = refl

lookup_user_by_uid_same_id_example : (made.external_id ≡ scim_alice.id) ↔ (1007 ≡ made.uid)
lookup_user_by_uid_same_id_example =
    lookup_user_by_uid_same_id hash_7 as_is true (engine_at 100) server (ascii "alice") scim_alice
      made state later found IsRange-1000 tt empty-IsPlaced asked looked_up reached_later
      (engine_at 120) 1007 made later.service by_uid
