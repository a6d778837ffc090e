-- ===== src/Cache/UserTable.antt =====
-- The statements of src/cache.rs that leave the table of users.
use mathlib.Core.Option.{some-injective}
use sssd_oidc.Prelude.{ℕ, ◌≡◌, sym, ap, ◌∙◌, List, [], ◌∷◌, some, inl, inr}
use sssd_oidc.Text.{Str}
use sssd_oidc.Exec.Keeps.{Keeps, Keeps-bind, Keeps-pure}
use sssd_oidc.Model.{Group}
use sssd_oidc.Database.Insert.{run_insert_group_member-eq-some}
use sssd_oidc.Database.{
  UserRow, Db, Statement, Engine, replace_group, delete_group_members, insert_group_member,
  delete_expired_members, delete_expired_groups, run_replace_group, run_delete_group_members,
  run_delete_expired_members, run_delete_expired_groups,
}
use sssd_oidc.Cache.State.{Cache}
use sssd_oidc.Cache.Executes.{execute-cases}
use sssd_oidc.Cache.Updates.{run, execute, insert_members, store_group}

-- Statements that leave the table of users.
pub data LeavesUsers : Statement → Type 0 where
  replaces_group :
      (external_id name : Str) (gid : ℕ) → LeavesUsers (replace_group external_id name gid)
  deletes_members : (external_id : Str) → LeavesUsers (delete_group_members external_id)
  inserts_member : (external_id member : Str) → LeavesUsers (insert_group_member external_id member)
  expires_members : (ttl : ℕ) → LeavesUsers (delete_expired_members ttl)
  expires_groups : (ttl : ℕ) → LeavesUsers (delete_expired_groups ttl)

module _ (engine : Engine) where
  pub run-users :
      (s : Statement)
      → LeavesUsers s
      → (db db' : Db) → run engine s db ≡ some db'
      → db'.uid_cache ≡ db.uid_cache
  unfolding run run_replace_group run_delete_group_members run_delete_expired_members
      run_delete_expired_groups
  run-users _ (replaces_group external_id name gid) db db' h =
      ap (λ d. d.uid_cache) (sym (some-injective _ _ h))
  run-users _ (deletes_members external_id) db db' h =
      ap (λ d. d.uid_cache) (sym (some-injective _ _ h))
  run-users _ (inserts_member external_id member) db db' h =
      let (_, _, same) =
        run_insert_group_member-eq-some engine.foreign_keys external_id member db db' h in
      ap (λ d. d.uid_cache) same
  run-users _ (expires_members ttl) db db' h = ap (λ d. d.uid_cache) (sym (some-injective _ _ h))
  run-users _ (expires_groups ttl) db db' h = ap (λ d. d.uid_cache) (sym (some-injective _ _ h))

  module _ (rows : List UserRow) where
    abbrev pub HasUsers : Cache → Type 0
    HasUsers cache = cache.conn.uid_cache ≡ rows

    pub keeps : (s : Statement) → LeavesUsers s → Keeps HasUsers (execute engine s)
    keeps s leaves = record {
      at = λ cache h. elim (execute-cases engine s cache) [
        | inl same ↦ ap (λ c. c.conn.uid_cache) same ∙ h
        | inr (db, ran, same) ↦
            ap (λ c. c.conn.uid_cache) same ∙ run-users s leaves cache.conn db ran ∙ h
      ];
    }

    Keeps-insert_members :
        (external_id : Str) (members : List Str)
        → Keeps HasUsers (insert_members engine external_id members)
    unfolding insert_members
    Keeps-insert_members external_id [] = Keeps-pure HasUsers tt
    Keeps-insert_members external_id (member ∷ members) =
        Keeps-bind HasUsers (execute engine (insert_group_member external_id member)) _
          (keeps _ (inserts_member external_id member))
          (λ _. Keeps-insert_members external_id members)

    pub Keeps-store_group : (group : Group) → Keeps HasUsers (store_group engine group)
    unfolding store_group
    Keeps-store_group group =
        Keeps-bind HasUsers (execute engine (replace_group group.external_id group.name group.gid))
          _ (keeps _ (replaces_group _ _ _))
          (λ _.
            Keeps-bind HasUsers (execute engine (delete_group_members group.external_id)) _
              (keeps _ (deletes_members _))
              (λ _. Keeps-insert_members group.external_id group.members))
