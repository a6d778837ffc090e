-- ===== src/Cache/RoundTrip.antt =====
-- A user that `store_user` of src/cache.rs has written is read back by `get_user_by_uid`.
use sssd_oidc.Prelude.{
  ℕ, ◌+◌, ◌≡◌, Bool, ◌&&◌, [], ◌∷◌, none, some, ltb, subst, sym, ◌∙◌, ◌==◌, if◌then◌else◌, keep,
  arith, inl, inr, Bool-cases,
}
use sssd_oidc.Outcome.{ok}
use sssd_oidc.Model.{User}
use sssd_oidc.Database.Rows.{upsert, keep-upsert_self}
use sssd_oidc.Database.{
  UserRow, Engine, replace_user, select_user_by_uid, is_fresh, clash_users, run_replace_user,
}
use sssd_oidc.Cache.State.{Cache}
use sssd_oidc.Cache.Queries.{get_user_by_uid}
use sssd_oidc.Cache.Updates.{store_user, run}
use sssd_oidc.Cache.Executes.{execute-ok}
use sssd_oidc.Cache.Select.{next_row_nil, next_row_single}

abbrev pub row_of_user : (now : ℕ) → User → UserRow
row_of_user now user = record {
  external_id = user.external_id;
  login = user.name;
  uid = user.uid;
  gecos = user.gecos;
  home = user.home;
  shell = user.shell;
  gid = user.gid;
  active = user.active;
  cached_at = now;
}

-- A successful write leaves the upserted table and the time to live.
pub store_user-ok :
    (engine : Engine) (cache : Cache) {cache' : Cache} (user : User)
    → store_user engine user cache ≡ (ok tt, cache')
    → cache' ≡ record cache {
      conn = run_replace_user (engine.clock (replace_user user) cache.conn) user cache.conn;
    }
unfolding store_user run
store_user-ok engine cache user h =
    let (db, ran, same) = execute-ok engine (replace_user user) cache h in cc

-- The read: `user` while it is fresh by the reader's clock, and nothing later.
pub get_user_by_uid_stored :
    (reader : Engine) (cache : Cache) (user : User) (now : ℕ)
    → let db = run_replace_user now user cache.conn in
      let statement = select_user_by_uid user.uid cache.ttl_seconds in
      reader.fault statement db ≡ none
      → get_user_by_uid reader (record cache { conn = db }) user.uid
        ≡ ok (if ltb (reader.clock statement db) (now + cache.ttl_seconds) then some user else none)
unfolding get_user_by_uid run_replace_user
get_user_by_uid_stored reader cache user now works =
    let db = run_replace_user now user cache.conn in
    let statement = select_user_by_uid user.uid cache.ttl_seconds in
    let later = reader.clock statement db in
    let asked : UserRow → Bool =
      λ r. r.uid == user.uid && is_fresh later cache.ttl_seconds r.cached_at in
    let row = row_of_user now user in
    let found = keep-upsert_self clash_users row asked cache.conn.uid_cache (λ r h. ground arith) in
    elim (Bool-cases (ltb later (now + cache.ttl_seconds))) [
      | inl e ↦
          let alone : keep asked (upsert clash_users row cache.conn.uid_cache) ≡ row ∷ [] =
            found ∙ ground arith in
          rw (e, alone, next_row_single reader statement db row works)
      | inr e ↦
          let gone : keep asked (upsert clash_users row cache.conn.uid_cache) ≡ [] =
            found ∙ ground arith in
          rw (e, gone, next_row_nil reader statement db works)
    ]

-- After a `store_user` that succeeds, a `get_user_by_uid` that does not fail returns that user while
-- the reader's clock is before the time of writing plus the time to live, and no user from then on.
pub store_user-get_user_by_uid :
    (writer reader : Engine) (cache cache' : Cache) (user : User)
    → store_user writer user cache ≡ (ok tt, cache')
    → reader.fault (select_user_by_uid user.uid cache'.ttl_seconds) cache'.conn ≡ none
    → get_user_by_uid reader cache' user.uid
      ≡ ok (
          if ltb
            (reader.clock (select_user_by_uid user.uid cache'.ttl_seconds) cache'.conn)
            (writer.clock (replace_user user) cache.conn + cache'.ttl_seconds)
          then some user
          else none)
store_user-get_user_by_uid writer reader cache cache' user stored =
    let now = writer.clock (replace_user user) cache.conn in
    subst
      (λ (c : Cache).
        reader.fault (select_user_by_uid user.uid c.ttl_seconds) c.conn ≡ none
        → get_user_by_uid reader c user.uid
          ≡ ok (
              if ltb (reader.clock (select_user_by_uid user.uid c.ttl_seconds) c.conn)
                (now + c.ttl_seconds)
              then some user
              else none))
      (sym (store_user-ok writer cache user stored)) (get_user_by_uid_stored reader cache user now)
