-- ===== src/Cache/GroupTable.antt =====
-- `store_group` of src/cache.rs and the table of groups, also where the call fails half way.
use mathlib.Core.Option.{some-injective}
use sssd_oidc.Prelude.{ap, refl, ◌∙◌, ℕ, ◌≡◌, sym, subst, List, [], ◌∷◌, none, some, inl, inr}
use sssd_oidc.Text.{Str}
use sssd_oidc.Outcome.{ok}
use sssd_oidc.Exec.{Exec, ◌>>◌}
use sssd_oidc.Exec.Success.{bind-ok}
use sssd_oidc.Exec.Keeps.{Keeps, Keeps-bind, Keeps-pure, Keeps-continue}
use sssd_oidc.Model.{Group}
use sssd_oidc.Database.Rows.{upsert}
use sssd_oidc.Database.Insert.{run_insert_group_member-eq-some}
use sssd_oidc.Database.{
  GroupRow, Db, Statement, Engine, clash_groups, replace_group, delete_group_members,
  insert_group_member, run_replace_group, run_delete_group_members,
}
use sssd_oidc.Cache.State.{Cache, CacheError}
use sssd_oidc.Cache.Executes.{execute-cases, execute-ok, execute_done}
use sssd_oidc.Cache.Updates.{run, execute, insert_members, store_group}
use sssd_oidc.Cache.StoreGroup.{row_of_group}

module _ (engine : Engine) (P : List GroupRow → Type 0) where
  abbrev pub HasGroups : Cache → Type 0
  HasGroups cache = P cache.conn.gid_cache

  Keeps-execute :
      (s : Statement)
      → ((db db' : Db) → run engine s db ≡ some db' → P db.gid_cache → P db'.gid_cache)
      → Keeps HasGroups (execute engine s)
  Keeps-execute s kept = record {
    at = λ cache h. elim (execute-cases engine s cache) [
      | inl same ↦ subst HasGroups (sym same) h
      | inr (db, ran, same) ↦ subst HasGroups (sym same) (kept cache.conn db ran h)
    ];
  }

  run_member :
      (external_id member : Str) (db db' : Db)
      → run engine (insert_group_member external_id member) db ≡ some db'
      → P db.gid_cache
      → P db'.gid_cache
  unfolding run
  run_member external_id member db db' ran h =
      let (_, _, same) =
        run_insert_group_member-eq-some engine.foreign_keys external_id member db db' ran in
      subst (λ (d : Db). P d.gid_cache) (sym same) h

  run_deletion :
      (external_id : Str) (db db' : Db)
      → run engine (delete_group_members external_id) db ≡ some db'
      → P db.gid_cache
      → P db'.gid_cache
  unfolding run run_delete_group_members
  run_deletion external_id db db' ran h =
      subst (λ (d : Db). P d.gid_cache) (some-injective _ _ ran) h

  Keeps-insert_members :
      (external_id : Str) (members : List Str)
      → Keeps HasGroups (insert_members engine external_id members)
  unfolding insert_members
  Keeps-insert_members external_id [] = Keeps-pure HasGroups tt
  Keeps-insert_members external_id (member ∷ members) =
      Keeps-bind HasGroups (execute engine (insert_group_member external_id member)) _
        (Keeps-execute _ (run_member external_id member))
        (λ _. Keeps-insert_members external_id members)

  abbrev rest : Group → Exec Cache CacheError (Unit {0})
  rest group = do
    execute engine (delete_group_members group.external_id)
    insert_members engine group.external_id group.members

  -- After the group's row, the table of groups is left.
  Keeps-rest : (group : Group) → Keeps HasGroups (rest group)
  Keeps-rest group =
      Keeps-bind HasGroups (execute engine (delete_group_members group.external_id)) _
        (Keeps-execute _ (run_deletion group.external_id))
        (λ _. Keeps-insert_members group.external_id group.members)

  abbrev replaces : Group → Statement
  replaces group = replace_group group.external_id group.name group.gid

  pub store_group-at :
      (group : Group) (cache : Cache)
      → ((now : ℕ) → P (upsert clash_groups (row_of_group now group) cache.conn.gid_cache))
      → P cache.conn.gid_cache
      → P (store_group engine group cache).1.conn.gid_cache
  unfolding store_group run run_replace_group
  store_group-at group cache new h =
      let written : HasGroups (execute engine (replaces group) cache).1 =
        elim (execute-cases engine (replaces group) cache) [
          | inl same ↦ subst HasGroups (sym same) h
          | inr (db, ran, same) ↦
              subst HasGroups (sym same)
                (subst (λ (d : Db). P d.gid_cache) (some-injective _ _ ran) (new _))
        ] in
      Keeps-continue HasGroups (execute engine (replaces group) cache).0 (λ _. rest group)
        (execute engine (replaces group) cache).1 (λ _. Keeps-rest group) written

  -- Where the engine does not refuse the group's row, it has been written, whatever fails afterwards.
  pub store_group-written :
      (group : Group) (cache : Cache)
      → engine.fault (replaces group) cache.conn ≡ none
      → ((now : ℕ) → P (upsert clash_groups (row_of_group now group) cache.conn.gid_cache))
      → P (store_group engine group cache).1.conn.gid_cache
  unfolding store_group run run_replace_group
  store_group-written group cache works new =
      let now = engine.clock (replaces group) cache.conn in
      let db =
        run_replace_group engine.foreign_keys now group.external_id group.name group.gid
          cache.conn in
      let done = execute_done engine (replaces group) cache {db = db} works refl in
      Keeps-continue HasGroups (execute engine (replaces group) cache).0 (λ _. rest group)
        (execute engine (replaces group) cache).1 (λ _. Keeps-rest group)
        (subst HasGroups (sym (ap (λ r. r.1) done)) (new now))

-- Where it succeeds, the row has been written.
pub store_group-ok :
    (engine : Engine) (group : Group) (cache cache' : Cache)
    → store_group engine group cache ≡ (ok tt, cache')
    → (now : ℕ) × (cache'.conn.gid_cache
        ≡ upsert clash_groups (row_of_group now group) cache.conn.gid_cache)
unfolding store_group run run_replace_group
store_group-ok engine group cache cache' h =
    let first = execute engine (replaces engine (λ _. Unit) group) in
    let (done, e, later) = bind-ok first (λ _. rest engine (λ _. Unit) group) cache h in
    let (db, ran, same) = execute-ok engine (replaces engine (λ _. Unit) group) cache e in
    let mid = (first cache).1 in
    let kept = (Keeps-rest engine (λ rows. rows ≡ mid.conn.gid_cache) group).at mid refl in
    (
      _,
      ap (λ r. r.1.conn.gid_cache) (sym later)
          ∙ kept
          ∙ ap (λ c. c.conn.gid_cache) same
          ∙ ap (λ d. d.gid_cache) (sym (some-injective _ _ ran)),
    )
