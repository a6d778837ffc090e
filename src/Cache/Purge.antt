-- ===== src/Cache/Purge.antt =====
-- `purge_expired` of src/cache.rs is invisible to the reads of users.
use sssd_oidc.Prelude.{ℕ, ◌≡◌, refl, ap, Bool, true, ◌&&◌, List, none, ◌==◌, keep, keep-keep, arith}
use sssd_oidc.Text.{Str, str_eq}
use sssd_oidc.Outcome.{ok}
use sssd_oidc.Database.{
  UserRow, Db, Statement, Engine, select_user_by_uid, select_user_by_name, is_fresh,
  delete_expired_members, delete_expired_groups, delete_expired_users, run_delete_expired_members,
  run_delete_expired_groups, run_delete_expired_users,
}
use sssd_oidc.Cache.State.{Cache}
use sssd_oidc.Cache.Queries.{select, next_row, get_user_by_uid, get_user_by_name}
use sssd_oidc.Cache.Executes.{execute_done}
use sssd_oidc.Cache.Updates.{run, purge_expired}

module _ (engine : Engine) (now : ℕ) (works : (s : Statement) (db : Db) → engine.fault s db ≡ none)
    (stopped : (s : Statement) (db : Db) → engine.clock s db ≡ now) (cache : Cache) where
  abbrev ttl : ℕ
  ttl = cache.ttl_seconds

  -- The database after each of the three statements.
  abbrev without_members : Db
  without_members = run_delete_expired_members now ttl cache.conn

  abbrev without_groups_too : Db
  without_groups_too = run_delete_expired_groups engine.foreign_keys now ttl without_members

  abbrev left : Db
  left = run_delete_expired_users now ttl without_groups_too

  purge_expired_lem : purge_expired engine ttl cache ≡ (ok tt, record cache { conn = left })
  unfolding purge_expired run
  purge_expired_lem =
      let first_done =
        execute_done engine (delete_expired_members ttl) cache {db = without_members} (works _ _)
          (rw stopped refl) in
      let second_done =
        execute_done engine (delete_expired_groups ttl) (record cache { conn = without_members })
          {db = without_groups_too} (works _ _) (rw stopped refl) in
      let third_done =
        execute_done engine (delete_expired_users ttl) (record cache { conn = without_groups_too })
          {db = left} (works _ _) (rw stopped refl) in
      rw (first_done, second_done, third_done) refl

  select-rows :
      (s : Statement) (db db' : Db) (rows rows' : List UserRow)
      → rows ≡ rows'
      → select engine s db rows ≡ select engine s db' rows'
  unfolding select
  select-rows s db db' rows rows' e = rw (works s db, works s db', select, e) refl

  -- Rows that a read asks for are fresh, so they are left.
  left_rows :
      (asked : UserRow → Bool)
      → ((r : UserRow) → asked r ≡ true → is_fresh now ttl r.cached_at ≡ true)
      → keep asked left.uid_cache ≡ keep asked cache.conn.uid_cache
  unfolding run_delete_expired_members run_delete_expired_groups run_delete_expired_users
  left_rows asked fresh = keep-keep asked _ cache.conn.uid_cache fresh

  read_by_uid :
      (uid : ℕ)
      → get_user_by_uid engine (record cache { conn = left }) uid ≡ get_user_by_uid engine cache uid
  unfolding get_user_by_uid next_row
  read_by_uid uid =
      let s = select_user_by_uid uid ttl in
      let asked : UserRow → Bool = λ r. r.uid == uid && is_fresh now ttl r.cached_at in
      let e =
        select-rows s left cache.conn (keep asked left.uid_cache) (keep asked cache.conn.uid_cache)
          (left_rows asked (λ r h. ground arith)) in
      rw (stopped s left, stopped s cache.conn, e) refl

  read_by_name :
      (name : Str)
      → get_user_by_name engine (record cache { conn = left }) name
        ≡ get_user_by_name engine cache name
  unfolding get_user_by_name next_row
  read_by_name name =
      let s = select_user_by_name name ttl in
      let asked : UserRow → Bool = λ r. str_eq r.login name && is_fresh now ttl r.cached_at in
      let e =
        select-rows s left cache.conn (keep asked left.uid_cache) (keep asked cache.conn.uid_cache)
          (left_rows asked (λ r h. ground arith)) in
      rw (stopped s left, stopped s cache.conn, e) refl

  -- If no statement fails and the clock stands still, users are read by UID and by name after
  -- `purge_expired` with the cache's own time to live as they were before.
  pub purge_expired-get_user :
      (uid : ℕ) (name : Str)
      → (get_user_by_uid engine (purge_expired engine cache.ttl_seconds cache).1 uid
          ≡ get_user_by_uid engine cache uid)
        × (get_user_by_name engine (purge_expired engine cache.ttl_seconds cache).1 name
            ≡ get_user_by_name engine cache name)
  purge_expired-get_user uid name =
      let after = ap (λ r. r.1) purge_expired_lem in
      (rw after (read_by_uid uid), rw after (read_by_name name))
