-- ===== src/Tests/CacheTest.antt =====
-- Runs of src/cache.rs.
use sssd_oidc.Prelude.{ℕ, ◌≡◌, ◌≢◌, ◌↔◌, refl, ◌&&◌, any, List, [], ◌∷◌, none, some, keep, ◌==◌}
use sssd_oidc.Text.{ascii, str_eq}
use sssd_oidc.Outcome.{ok}
use sssd_oidc.Model.{User, Group}
use sssd_oidc.Mapping.{resolve_id}
use sssd_oidc.Database.{GroupRow, run_replace_user, is_fresh, joined}
use sssd_oidc.Database.Rows.{IsUnique, upsert}
use sssd_oidc.Cache.State.{Cache}
use sssd_oidc.Cache.Queries.{
  select, next_row, uid_owner, resolve_uid, get_user_by_uid, get_group_by_gid,
}
use sssd_oidc.Cache.Updates.{run, execute, store_user, store_group, purge_expired}
use sssd_oidc.Cache.Queries.{get_user_by_name}
use sssd_oidc.Cache.Purge.{purge_expired-get_user}
use sssd_oidc.Cache.RoundTrip.{row_of_user}
use sssd_oidc.Cache.StoreGroup.{store_group-ok_iff, store_group-get_group_by_gid}
use sssd_oidc.Cache.Holder.{holder, holder-run_replace_user}
use sssd_oidc.Cache.Races.{resolve_uid_races}
use sssd_oidc.Cache.Stability.{resolve_uid_abandons}
use sssd_oidc.Cache.Queries.{get_groups_for_member, load_groups, with_members, get_group_members}
use sssd_oidc.Cache.Book.{MethodCall, write_user, expire, look, after, replay}
use sssd_oidc.Cache.Refinement.{get_user_by_uid-replay}
use sssd_oidc.Cache.Membership.{has_member, get_groups_for_member-gid}
use sssd_oidc.Tests.Fixtures.{engine_at, hash_7, empty_cache, empty_db, alice, staff, IsRange-1000}

abbrev with_alice : Cache
with_alice = record empty_cache {
  conn = record empty_db { uid_cache = row_of_user 100 alice ∷ [] };
}

store_alice : store_user (engine_at 100) alice empty_cache ≡ (ok tt, with_alice)
unfolding store_user execute run run_replace_user upsert keep
store_alice = refl

first_for_alice : resolve_uid (engine_at 100) hash_7 empty_cache (ascii "a1") 1000 10 ≡ ok 1007
unfolding resolve_uid uid_owner next_row select resolve_id keep
first_for_alice = refl

holder-run_replace_user_example :
    holder (run_replace_user 100 alice empty_db) 1007 ≡ some (row_of_user 100 alice)
holder-run_replace_user_example = holder-run_replace_user 100 alice empty_db 1007 tt

staff_distinct : IsUnique str_eq staff.members
unfolding str_eq
staff_distinct = ((refl, tt), (tt, tt))

store_group-get_group_by_gid_example :
    get_group_by_gid (engine_at 130) (store_group (engine_at 100) staff empty_cache).1 1003
    ≡ ok (some staff)
store_group-get_group_by_gid_example =
    store_group-get_group_by_gid (engine_at 100) (engine_at 130) empty_cache staff (λ s db. refl)
      (λ s db. refl) staff_distinct

store_group-ok_iff_example :
    ((store_group (engine_at 100) staff empty_cache).0 ≡ ok tt) ↔ IsUnique str_eq staff.members
store_group-ok_iff_example = store_group-ok_iff (engine_at 100) (λ s db. refl) staff empty_cache

-- A user that was placed one slot further.
abbrev moved : User
moved = record alice { uid = 1008 }

abbrev with_moved : Cache
with_moved = record empty_cache {
  conn = record empty_db { uid_cache = row_of_user 100 moved ∷ [] };
}

moved_held : holder with_moved.conn 1008 ≡ some (row_of_user 100 moved)
unfolding holder keep
moved_held = refl

slot_free : holder with_moved.conn 1007 ≡ none
unfolding holder keep
slot_free = refl

resolve_uid_abandons_example :
    (resolve_uid (engine_at 100) hash_7 with_moved (ascii "a1") 1000 10 ≡ ok 1007)
    × (◌≢◌ {A = ℕ} 1007 1008)
resolve_uid_abandons_example =
    resolve_uid_abandons hash_7 IsRange-1000 (ascii "a1") 7 refl (engine_at 100) with_moved 1008
      (row_of_user 100 moved) (tt, tt) (λ uid. refl) moved_held refl slot_free

-- Bob is stored by another process, which has found the slot free too.
abbrev rival : User
rival = record alice { external_id = ascii "b1"; name = ascii "bob" }

abbrev with_rival : Cache
with_rival = (store_user (engine_at 101) rival with_alice).1

store_rival : store_user (engine_at 101) rival with_alice ≡ (ok tt, with_rival)
unfolding store_user execute run run_replace_user upsert keep
store_rival = refl

first_for_rival : resolve_uid (engine_at 100) hash_7 empty_cache (ascii "b1") 1000 10 ≡ ok 1007
unfolding resolve_uid uid_owner next_row select resolve_id keep
first_for_rival = refl

none_held : holder empty_db 1007 ≡ none
unfolding holder keep
none_held = refl

resolve_uid_races_example :
    (alice.uid ≡ rival.uid)
    × ((now : ℕ) × (holder with_rival.conn 1007 ≡ some (row_of_user now rival)))
resolve_uid_races_example =
    resolve_uid_races hash_7 IsRange-1000 (engine_at 100) (engine_at 100) (engine_at 100)
      (engine_at 101) empty_cache with_alice with_rival alice rival 7 7 refl refl refl tt refl refl
      none_held first_for_alice first_for_rival store_alice store_rival

purge_expired-get_user_example :
    (get_user_by_uid (engine_at 130) (purge_expired (engine_at 130) 60 with_alice).1 1007
      ≡ get_user_by_uid (engine_at 130) with_alice 1007)
    × (get_user_by_name
          (engine_at 130)
          (purge_expired (engine_at 130) 60 with_alice).1
          (ascii "alice")
        ≡ get_user_by_name (engine_at 130) with_alice (ascii "alice"))
purge_expired-get_user_example =
    purge_expired-get_user (engine_at 130) 130 (λ s db. refl) (λ s db. refl) with_alice 1007
      (ascii "alice")

-- Alice is stored at 100, a purge at 120 leaves her, and she is read at 130.
abbrev calls : List MethodCall
calls =
    record { engine = engine_at 100; now = 100; write = write_user alice; clock = λ s db. refl }
    ∷ record { engine = engine_at 120; now = 120; write = expire 60; clock = λ s db. refl }
    ∷ []

get_user_by_uid-replay_example :
    get_user_by_uid (engine_at 130) (after calls empty_cache) 1007
    ≡ ok (
        look 130
          (after calls empty_cache).ttl_seconds
          (replay calls empty_cache (holder empty_db))
          1007)
get_user_by_uid-replay_example =
    get_user_by_uid-replay calls empty_cache (engine_at 130) 1007 tt refl

abbrev with_staff : Cache
with_staff = record empty_cache {
  conn = record empty_db {
    gid_cache =
        record { external_id = ascii "g1"; name = ascii "staff"; gid = 1003; cached_at = 90 } ∷ [];
    group_members = record { group_external_id = ascii "g1"; member_name = ascii "bob" } ∷ [];
  };
}

abbrev staff_of_bob : Group
staff_of_bob = record staff { members = ascii "bob" ∷ [] }

groups_of_bob :
    get_groups_for_member (engine_at 100) with_staff (ascii "bob") ≡ ok (staff_of_bob ∷ [])
unfolding get_groups_for_member select load_groups with_members get_group_members joined keep str_eq
groups_of_bob = refl

get_groups_for_member-gid_example :
    any (λ (g : Group). g.gid == 1003) (staff_of_bob ∷ [])
    ≡ any
        (λ (r : GroupRow).
          r.gid == 1003
          && is_fresh 100 60 r.cached_at
          && has_member with_staff.conn.group_members (ascii "bob") r)
        with_staff.conn.gid_cache
get_groups_for_member-gid_example =
    get_groups_for_member-gid (engine_at 100) with_staff (ascii "bob") 1003 (staff_of_bob ∷ [])
      groups_of_bob
