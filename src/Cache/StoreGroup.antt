-- ===== src/Cache/StoreGroup.antt =====
-- `store_group` of src/cache.rs as a whole, and reading the group back by its GID.
use sssd_oidc.Prelude.{
  ℕ, ◌+◌, ◌≡◌, ◌↔◌, refl, sym, subst, ap, ◌∙◌, Bool, true, not, ◌&&◌, List, [], ◌∷◌, none, some,
  keep, any, if◌then◌else◌, arith, inl, inr, Bool-cases, ltb, ◌==◌, All-keep_self, keep-eq-nil,
  All-map,
}
use sssd_oidc.Text.{Str, str_eq, str_eq_refl}
use sssd_oidc.Outcome.{ok}
use sssd_oidc.Model.{Group}
use sssd_oidc.Database.Rows.{upsert, IsUnique, keep-upsert_self}
use sssd_oidc.Database.Insert.{any-append}
use sssd_oidc.Database.{
  GroupRow, MemberRow, Db, Statement, Engine, replace_group, delete_group_members,
  select_group_by_gid, select_group_members, clash_groups, belongs_to, is_fresh, run_replace_group,
  run_delete_group_members,
}
use sssd_oidc.Cache.State.{Cache}
use sssd_oidc.Cache.Queries.{
  select, group_of_row, get_group_members, with_members, get_group_by_gid,
}
use sssd_oidc.Cache.Updates.{run, insert_members, store_group}
use sssd_oidc.Cache.Executes.{execute_done}
use sssd_oidc.Cache.Select.{next_row_nil, next_row_single}
use sssd_oidc.Cache.Members.{
  names_of, Anchored, with_rows, IsNew-nil, insert_members_new, insert_members-IsNew,
}

abbrev pub row_of_group : (now : ℕ) → Group → GroupRow
row_of_group now group = record {
  external_id = group.external_id;
  name = group.name;
  gid = group.gid;
  cached_at = now;
}

-- The database when the member rows are about to be written.
pub emptied : Bool → (now : ℕ) → Group → Db → Db
emptied foreign_keys now group db =
    run_delete_group_members group.external_id
      (run_replace_group foreign_keys now group.external_id group.name group.gid db)

no_names :
    (foreign_keys : Bool) (now : ℕ) (group : Group) (db : Db)
    → names_of group.external_id (emptied foreign_keys now group db).group_members ≡ []
unfolding emptied run_delete_group_members names_of
no_names foreign_keys now group db =
    let e = keep-eq-nil (belongs_to group.external_id) _ (
      All-map _ _ _ (λ m p. ground arith)
        (All-keep_self (λ m. not (belongs_to group.external_id m))
          (run_replace_group foreign_keys now group.external_id group.name group.gid
            db).group_members)) in
    rw e

anchored :
    (foreign_keys : Bool) (now : ℕ) (group : Group) (db : Db)
    → any
        (λ (g : GroupRow). str_eq group.external_id g.external_id)
        (emptied foreign_keys now group db).gid_cache
      ≡ true
unfolding emptied run_delete_group_members run_replace_group upsert any
anchored foreign_keys now group db = rw (any-append, str_eq_refl group.external_id) (ground arith)

module _ (engine : Engine) (works : (s : Statement) (db : Db) → engine.fault s db ≡ none)
    (group : Group) (cache : Cache) where
  abbrev pub write_time : ℕ
  write_time = engine.clock (replace_group group.external_id group.name group.gid) cache.conn

  abbrev pub before_members : Cache
  before_members = record cache { conn = emptied engine.foreign_keys write_time group cache.conn }

  -- The first two statements succeed; what is left is the loop.
  store_group-loop :
      store_group engine group cache
      ≡ insert_members engine group.external_id group.members before_members
  unfolding store_group run emptied
  store_group-loop =
      let first_done =
        execute_done engine (replace_group group.external_id group.name group.gid) cache (works _ _)
          refl in
      rw first_done (
        let second_done =
          execute_done engine (delete_group_members group.external_id)
            (record cache {
              conn =
                  run_replace_group engine.foreign_keys
                    (engine.clock (replace_group group.external_id group.name group.gid) cache.conn)
                    group.external_id group.name group.gid cache.conn;
            })
            (works _ _) refl in
        rw second_done)

  anchor : Anchored engine works group.external_id before_members
  anchor = λ on. anchored engine.foreign_keys write_time group cache.conn

  starts_empty : names_of group.external_id before_members.conn.group_members ≡ []
  starts_empty = no_names engine.foreign_keys write_time group cache.conn

  -- With distinct names, what `store_group` leaves.
  pub store_group_done :
      IsUnique str_eq group.members
      → (rows : List MemberRow) × (store_group engine group cache
          ≡ (ok tt, with_rows engine works group.external_id before_members rows))
        × (names_of group.external_id rows ≡ group.members)
  store_group_done unique =
      let (rows, ran, listed) =
        insert_members_new engine works group.external_id group.members before_members anchor
          (rw starts_empty (IsNew-nil group.members unique)) in
      (rows, store_group-loop ∙ ran, listed ∙ rw starts_empty)

  -- If the engine itself refuses no statement, `store_group` succeeds exactly when no member name is
  -- repeated.
  pub store_group-ok_iff :
      ((store_group engine group cache).0 ≡ ok tt) ↔ IsUnique str_eq group.members
  store_group-ok_iff = (
    (λ h.
        let whole : insert_members engine group.external_id group.members before_members
            ≡ (ok tt, (store_group engine group cache).1) =
          sym store_group-loop ∙ (λ i. (h i, (store_group engine group cache).1)) in
        (rw starts_empty at (
          insert_members-IsNew engine works group.external_id group.members before_members _
            whole)).1),
    (λ unique. let (rows, ran, _) = store_group_done unique in ap (λ r. r.0) ran),
  )

with_members_stored :
    (reader : Engine) (reads : (s : Statement) (db : Db) → reader.fault s db ≡ none) (cache : Cache)
    (group : Group) (names : List Str)
    → names_of group.external_id cache.conn.group_members ≡ names
    → with_members reader cache group
      ≡ ok (record group {
        members = reader.arrange (select_group_members group.external_id) Str names;
      })
unfolding with_members get_group_members select names_of
with_members_stored reader reads cache group names listed =
    rw (reads (select_group_members group.external_id) cache.conn, select, listed)

-- Reading the group from the database that `store_group` leaves.
get_group_by_gid_stored :
    (reader : Engine) (reads : (s : Statement) (db : Db) → reader.fault s db ≡ none)
    (foreign_keys : Bool) (now : ℕ) (group : Group) (cache : Cache) (rows : List MemberRow)
    → names_of group.external_id rows ≡ group.members
    → let db = record (emptied foreign_keys now group cache.conn) { group_members = rows } in
      get_group_by_gid reader (record cache { conn = db }) group.gid
      ≡ ok (
          if ltb
            (reader.clock (select_group_by_gid group.gid cache.ttl_seconds) db)
            (now + cache.ttl_seconds)
          then some (record group {
            members = reader.arrange (select_group_members group.external_id) Str group.members;
          })
          else none)
unfolding get_group_by_gid emptied run_delete_group_members run_replace_group
get_group_by_gid_stored reader reads foreign_keys now group cache rows listed =
    let db = record (emptied foreign_keys now group cache.conn) { group_members = rows } in
    let statement = select_group_by_gid group.gid cache.ttl_seconds in
    let later = reader.clock statement db in
    let asked : GroupRow → Bool =
      λ r. r.gid == group.gid && is_fresh later cache.ttl_seconds r.cached_at in
    let row = row_of_group now group in
    let found =
      keep-upsert_self clash_groups row asked cache.conn.gid_cache (λ r h. ground arith) in
    elim (Bool-cases (ltb later (now + cache.ttl_seconds))) [
      | inl e ↦
          let alone : keep asked (upsert clash_groups row cache.conn.gid_cache) ≡ row ∷ [] =
            found ∙ ground arith in
          rw (e, alone, next_row_single reader statement db row (reads _ _))
            (rw (
              with_members_stored reader reads (record cache { conn = db }) (group_of_row row)
                group.members listed))
      | inr e ↦
          let gone : keep asked (upsert clash_groups row cache.conn.gid_cache) ≡ [] =
            found ∙ ground arith in
          rw (e, gone, next_row_nil reader statement db (reads _ _))
    ]

-- If the engine refuses no statement, a group with distinct member names that `store_group` has
-- written is read back by `get_group_by_gid` until its time to live has passed, with the same
-- members in the order in which the reading engine returns rows; afterwards no group is.
pub store_group-get_group_by_gid :
    (writer reader : Engine) (cache : Cache) (group : Group)
    → ((s : Statement) (db : Db) → writer.fault s db ≡ none)
    → ((s : Statement) (db : Db) → reader.fault s db ≡ none)
    → IsUnique str_eq group.members
    → let cache' = (store_group writer group cache).1 in
      let now = writer.clock (replace_group group.external_id group.name group.gid) cache.conn in
      get_group_by_gid reader cache' group.gid
      ≡ ok (
          if ltb
            (reader.clock (select_group_by_gid group.gid cache.ttl_seconds) cache'.conn)
            (now + cache.ttl_seconds)
          then some (record group {
            members = reader.arrange (select_group_members group.external_id) Str group.members;
          })
          else none)
store_group-get_group_by_gid writer reader cache group works reads unique =
    let now = writer.clock (replace_group group.external_id group.name group.gid) cache.conn in
    let (rows, ran, listed) = store_group_done writer works group cache unique in
    subst
      (λ (c : Cache).
        get_group_by_gid reader c group.gid
        ≡ ok (
            if ltb (reader.clock (select_group_by_gid group.gid cache.ttl_seconds) c.conn)
              (now + cache.ttl_seconds)
            then some (record group {
              members = reader.arrange (select_group_members group.external_id) Str group.members;
            })
            else none))
      (sym (ap (λ r. r.1) ran))
      (get_group_by_gid_stored reader reads writer.foreign_keys now group cache rows listed)
