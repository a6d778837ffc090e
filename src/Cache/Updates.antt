-- ===== src/Cache/Updates.antt =====
-- src/cache.rs: the methods of `Cache` that write to the database.
use sssd_oidc.Prelude.{ℕ, List, [], ◌∷◌, Option, none, some}
use sssd_oidc.Text.{Str}
use sssd_oidc.Outcome.{ok, err}
use sssd_oidc.Exec.{Exec, pure, ◌>>◌}
use sssd_oidc.Model.{User, Group}
use sssd_oidc.Database.{
  Db, Statement, replace_user, replace_group, delete_group_members, insert_group_member,
  delete_expired_members, delete_expired_groups, delete_expired_users, constraint_violation, Engine,
  run_replace_user, run_replace_group, run_delete_group_members, run_insert_group_member,
  run_delete_expired_members, run_delete_expired_groups, run_delete_expired_users,
}
use sssd_oidc.Cache.State.{CacheError, sqlite, Cache}

module _ (engine : Engine) where
  -- The table change of a statement that does not fail; `none` for a violated constraint.
  unfoldable pub run : Statement → Db → Option Db
  run (replace_user user) db = some (run_replace_user (engine.clock (replace_user user) db) user db)
  run (replace_group external_id name gid) db = some (
      run_replace_group engine.foreign_keys (engine.clock (replace_group external_id name gid) db)
        external_id name gid db)
  run (delete_group_members external_id) db = some (run_delete_group_members external_id db)
  run (insert_group_member external_id member) db =
      run_insert_group_member engine.foreign_keys external_id member db
  run (delete_expired_members ttl) db =
      some (run_delete_expired_members (engine.clock (delete_expired_members ttl) db) ttl db)
  run (delete_expired_groups ttl) db = some (
      run_delete_expired_groups engine.foreign_keys (engine.clock (delete_expired_groups ttl) db)
        ttl db)
  run (delete_expired_users ttl) db =
      some (run_delete_expired_users (engine.clock (delete_expired_users ttl) db) ttl db)
  run _ db = some db

  -- `self.conn.execute(…)?`
  unfoldable pub execute : Statement → Exec Cache CacheError (Unit {0})
  execute statement cache = elim (engine.fault statement cache.conn) [
    | some e ↦ (err (sqlite e), cache)
    | none ↦ elim (run statement cache.conn) [
      | none ↦ (err (sqlite constraint_violation), cache)
      | some db ↦ (ok tt, record cache { conn = db })
    ]
  ]

  unfoldable pub store_user : User → Exec Cache CacheError (Unit {0})
  store_user user = execute (replace_user user)

  unfoldable pub insert_members : Str → List Str → Exec Cache CacheError (Unit {0})
  insert_members external_id [] = pure tt
  insert_members external_id (member ∷ members) = do
    execute (insert_group_member external_id member)
    insert_members external_id members

  unfoldable pub store_group : Group → Exec Cache CacheError (Unit {0})
  store_group group = do
    execute (replace_group group.external_id group.name group.gid)
    execute (delete_group_members group.external_id)
    insert_members group.external_id group.members

  unfoldable pub purge_expired : ℕ → Exec Cache CacheError (Unit {0})
  purge_expired ttl_seconds = do
    execute (delete_expired_members ttl_seconds)
    execute (delete_expired_groups ttl_seconds)
    execute (delete_expired_users ttl_seconds)
