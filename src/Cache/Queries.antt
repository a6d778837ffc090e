-- ===== src/Cache/Queries.antt =====
-- src/cache.rs: the methods of `Cache` that only read the database.
use sssd_oidc.Prelude.{ℕ, Bool, ◌&&◌, List, [], ◌∷◌, Option, none, some, ◌==◌, keep, first, map}
use sssd_oidc.Text.{Str, str_eq}
use sssd_oidc.Outcome.{Outcome, ok, err, ◌>>=◌}
use sssd_oidc.Model.{User, Group}
use sssd_oidc.Mapping.{resolve_id}
use sssd_oidc.Database.{
  UserRow, GroupRow, MemberRow, Db, Statement, select_uid_owner, select_gid_owner,
  select_user_by_uid, select_user_by_name, select_group_by_gid, select_group_by_name,
  select_groups_for_member, select_group_members, Engine, is_fresh, belongs_to, joined,
}
use sssd_oidc.Cache.State.{CacheError, sqlite, Cache, cache_error_from_exhausted}

-- The closures given to `query_map`.
abbrev pub user_of_row : UserRow → User
user_of_row r = record {
  external_id = r.external_id;
  name = r.login;
  uid = r.uid;
  gid = r.gid;
  gecos = r.gecos;
  home = r.home;
  shell = r.shell;
  active = r.active;
}

abbrev pub group_of_row : GroupRow → Group
group_of_row r = record { external_id = r.external_id; name = r.name; gid = r.gid; members = [] }

module _ (engine : Engine) where
  -- A SELECT: the rows that it selects, in the engine's order, or the engine's error.
  unfoldable pub select : {A : Type 0} → Statement → Db → List A → Outcome CacheError (List A)
  select statement db rows = elim (engine.fault statement db) [
    | none ↦ ok (engine.arrange statement _ rows)
    | some e ↦ err (sqlite e)
  ]

  -- `rows.next()` of a SELECT
  unfoldable pub next_row : {A : Type 0} → Statement → Db → List A → Outcome CacheError (Option A)
  unfolding select
  next_row statement db rows = do selected ← select statement db rows; ok (first selected)

  unfoldable pub uid_owner : Cache → ℕ → Str → Outcome CacheError (Option Bool)
  uid_owner cache uid external_id = do
    row ←
        next_row (select_uid_owner uid) cache.conn
          (keep (λ (r : UserRow). r.uid == uid) cache.conn.uid_cache)
    elim row [ some owner ↦ ok (some (str_eq owner.external_id external_id)) | none ↦ ok none ]

  unfoldable pub gid_owner : Cache → ℕ → Str → Outcome CacheError (Option Bool)
  gid_owner cache gid external_id = do
    row ←
        next_row (select_gid_owner gid) cache.conn
          (keep (λ (r : GroupRow). r.gid == gid) cache.conn.gid_cache)
    elim row [ some owner ↦ ok (some (str_eq owner.external_id external_id)) | none ↦ ok none ]

  module _ (murmur3_32 : Str → ℕ → Option ℕ) where
    unfoldable pub resolve_uid : Cache → Str → ℕ → ℕ → Outcome CacheError ℕ
    resolve_uid cache external_id range_min range_size =
        resolve_id murmur3_32 external_id range_min range_size
          (λ candidate. uid_owner cache candidate external_id)

    unfoldable pub resolve_gid : Cache → Str → ℕ → ℕ → Outcome CacheError ℕ
    resolve_gid cache external_id range_min range_size =
        resolve_id murmur3_32 external_id range_min range_size
          (λ candidate. gid_owner cache candidate external_id)

  unfoldable pub get_user_by_uid : Cache → ℕ → Outcome CacheError (Option User)
  get_user_by_uid cache uid = do
    let statement = select_user_by_uid uid cache.ttl_seconds
    row ← next_row statement cache.conn (
        keep
          (λ (r : UserRow).
            r.uid == uid
            && is_fresh (engine.clock statement cache.conn) cache.ttl_seconds r.cached_at)
          cache.conn.uid_cache)
    elim row [ some found ↦ ok (some (user_of_row found)) | none ↦ ok none ]

  unfoldable pub get_user_by_name : Cache → Str → Outcome CacheError (Option User)
  get_user_by_name cache name = do
    let statement = select_user_by_name name cache.ttl_seconds
    row ← next_row statement cache.conn (
        keep
          (λ (r : UserRow).
            str_eq r.login name
            && is_fresh (engine.clock statement cache.conn) cache.ttl_seconds r.cached_at)
          cache.conn.uid_cache)
    elim row [ some found ↦ ok (some (user_of_row found)) | none ↦ ok none ]

  unfoldable pub get_group_members : Cache → Str → Outcome CacheError (List Str)
  get_group_members cache external_id = do
    rows ← select (select_group_members external_id) cache.conn (
        map (λ (m : MemberRow). m.member_name)
          (keep (belongs_to external_id) cache.conn.group_members))
    ok rows

  -- `group.members = self.get_group_members(…)?`
  unfoldable pub with_members : Cache → Group → Outcome CacheError Group
  with_members cache group = do
    members ← get_group_members cache group.external_id
    ok (record group { members = members })

  unfoldable pub get_group_by_gid : Cache → ℕ → Outcome CacheError (Option Group)
  get_group_by_gid cache gid = do
    let statement = select_group_by_gid gid cache.ttl_seconds
    row ← next_row statement cache.conn (
        keep
          (λ (r : GroupRow).
            r.gid == gid
            && is_fresh (engine.clock statement cache.conn) cache.ttl_seconds r.cached_at)
          cache.conn.gid_cache)
    elim row [
      | some found ↦ do group ← with_members cache (group_of_row found); ok (some group)
      | none ↦ ok none
    ]

  unfoldable pub get_group_by_name : Cache → Str → Outcome CacheError (Option Group)
  get_group_by_name cache name = do
    let statement = select_group_by_name name cache.ttl_seconds
    row ← next_row statement cache.conn (
        keep
          (λ (r : GroupRow).
            str_eq r.name name
            && is_fresh (engine.clock statement cache.conn) cache.ttl_seconds r.cached_at)
          cache.conn.gid_cache)
    elim row [
      | some found ↦ do group ← with_members cache (group_of_row found); ok (some group)
      | none ↦ ok none
    ]

  -- The loop over the joined rows.
  unfoldable pub load_groups : Cache → List GroupRow → Outcome CacheError (List Group)
  load_groups cache [] = ok []
  load_groups cache (row ∷ rows) = do
    group ← with_members cache (group_of_row row)
    groups ← load_groups cache rows
    ok (group ∷ groups)

  unfoldable pub get_groups_for_member : Cache → Str → Outcome CacheError (List Group)
  get_groups_for_member cache member_name = do
    let statement = select_groups_for_member member_name cache.ttl_seconds
    rows ← select statement cache.conn (
        keep
          (λ (g : GroupRow).
            is_fresh (engine.clock statement cache.conn) cache.ttl_seconds g.cached_at)
          (joined cache.conn.gid_cache cache.conn.group_members member_name))
    load_groups cache rows
