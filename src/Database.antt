-- ===== src/Database.antt =====
-- The SQLite database of src/cache.rs: the tables that `Cache::open` declares, and the meaning of the
-- SQL statements in that file over them.
-- SQLite itself is taken as an `Engine`: what its clock reads when a statement runs, whether the
-- statement fails, the order in which a SELECT without ORDER BY returns rows, and whether foreign
-- keys are enforced. A statement that fails leaves the tables as they were.
pub mod Rows
pub mod Unique
pub mod Insert
use mathlib.Core.List.{Permᴰ}
use sssd_oidc.Prelude.{
  ℕ, ◌+◌, Bool, true, false, not, ◌&&◌, ◌||◌, List, [], ◌∷◌, ◌++◌, Option, none, some, ltb, leb,
  ◌==◌, if◌then◌else◌, keep, any, map,
}
use sssd_oidc.Text.{Str, str_eq}
use sssd_oidc.Model.{User}
use sssd_oidc.Database.Rows.{upsert}

pub record UserRow : Type 0 where
  pub external_id : Str
  pub login : Str
  pub uid : ℕ
  pub gecos : Str
  pub home : Str
  pub shell : Str
  pub gid : ℕ
  pub active : Bool
  pub cached_at : ℕ

pub record GroupRow : Type 0 where
  pub external_id : Str
  pub name : Str
  pub gid : ℕ
  pub cached_at : ℕ

pub record MemberRow : Type 0 where
  pub group_external_id : Str
  pub member_name : Str

pub record Db : Type 0 where
  pub uid_cache : List UserRow
  pub gid_cache : List GroupRow
  pub group_members : List MemberRow

-- The prepared statements, with their parameters.
pub data Statement : Type 0 where
  select_uid_owner : ℕ → Statement
  select_gid_owner : ℕ → Statement
  replace_user : User → Statement
  select_user_by_uid : (uid ttl_seconds : ℕ) → Statement
  select_user_by_name : (name : Str) (ttl_seconds : ℕ) → Statement
  replace_group : (external_id name : Str) (gid : ℕ) → Statement
  delete_group_members : Str → Statement
  insert_group_member : (external_id member : Str) → Statement
  select_group_by_gid : (gid ttl_seconds : ℕ) → Statement
  select_group_by_name : (name : Str) (ttl_seconds : ℕ) → Statement
  delete_expired_members : (ttl_seconds : ℕ) → Statement
  delete_expired_groups : (ttl_seconds : ℕ) → Statement
  delete_expired_users : (ttl_seconds : ℕ) → Statement
  select_groups_for_member : (member_name : Str) (ttl_seconds : ℕ) → Statement
  select_group_members : Str → Statement

-- A violated constraint, or any other result code.
pub data SqliteError : Type 0 where
  constraint_violation : SqliteError
  failure : ℕ → SqliteError

pub record Engine : Type 1 where
  pub clock : Statement → Db → ℕ
  pub fault : Statement → Db → Option SqliteError
  pub foreign_keys : Bool
  pub arrange : Statement → (A : Type 0) → List A → List A
  pub arrange-perm : (s : Statement) (A : Type 0) (rows : List A) → Permᴰ (arrange s A rows) rows

-- The uniqueness constraints: PRIMARY KEY (external_id) and UNIQUE (uid), (gid).
abbrev pub clash_users : UserRow → UserRow → Bool
clash_users a b = str_eq a.external_id b.external_id || a.uid == b.uid

abbrev pub clash_groups : GroupRow → GroupRow → Bool
clash_groups a b = str_eq a.external_id b.external_id || a.gid == b.gid

-- PRIMARY KEY (group_external_id, member_name)
abbrev pub clash_members : MemberRow → MemberRow → Bool
clash_members a b =
    str_eq a.group_external_id b.group_external_id && str_eq a.member_name b.member_name

-- `cached_at > now - ttl`, in integers without a bound from below
abbrev pub is_fresh : (now ttl_seconds cached_at : ℕ) → Bool
is_fresh now ttl_seconds cached_at = ltb now (cached_at + ttl_seconds)

abbrev pub belongs_to : Str → MemberRow → Bool
belongs_to external_id m = str_eq m.group_external_id external_id

-- The rows that belong to none of these groups.
unfoldable pub without_groups : List GroupRow → List MemberRow → List MemberRow
without_groups gone ms =
    keep (λ m. not (any (λ (g : GroupRow). belongs_to g.external_id m) gone)) ms

-- ON DELETE CASCADE of `group_members`
abbrev pub cascade : Bool → List GroupRow → List MemberRow → List MemberRow
cascade foreign_keys gone ms = if foreign_keys then without_groups gone ms else ms

-- INSERT OR REPLACE INTO uid_cache
unfoldable pub run_replace_user : (now : ℕ) → User → Db → Db
run_replace_user now user db = record db {
  uid_cache =
      upsert clash_users
        (record {
          external_id = user.external_id;
          login = user.name;
          uid = user.uid;
          gecos = user.gecos;
          home = user.home;
          shell = user.shell;
          gid = user.gid;
          active = user.active;
          cached_at = now;
        })
        db.uid_cache;
}

-- INSERT OR REPLACE INTO gid_cache: replaced rows count as deleted for the foreign key.
unfoldable pub run_replace_group : Bool → (now : ℕ) → (external_id name : Str) → (gid : ℕ) → Db → Db
run_replace_group foreign_keys now external_id name gid db =
    let row : GroupRow = record {
      external_id = external_id;
      name = name;
      gid = gid;
      cached_at = now;
    } in
    record db {
      gid_cache = upsert clash_groups row db.gid_cache;
      group_members = cascade foreign_keys (keep (clash_groups row) db.gid_cache) db.group_members;
    }

-- DELETE FROM group_members WHERE group_external_id = ?1
unfoldable pub run_delete_group_members : Str → Db → Db
run_delete_group_members external_id db = record db {
  group_members = keep (λ m. not (belongs_to external_id m)) db.group_members;
}

-- INSERT INTO group_members: `none` if the primary key or the foreign key is violated.
unfoldable pub run_insert_group_member : Bool → (external_id member : Str) → Db → Option Db
run_insert_group_member foreign_keys external_id member db =
    let row : MemberRow = record { group_external_id = external_id; member_name = member } in
    if any (clash_members row) db.group_members
      || (foreign_keys
          && not (any (λ (g : GroupRow). str_eq external_id g.external_id) db.gid_cache))
    then none
    else some (record db { group_members = db.group_members ++ row ∷ [] })

-- The three DELETE statements of `purge_expired`.
unfoldable pub run_delete_expired_members : (now ttl_seconds : ℕ) → Db → Db
run_delete_expired_members now ttl_seconds db = record db {
  group_members =
      without_groups
        (keep (λ (g : GroupRow). not (is_fresh now ttl_seconds g.cached_at)) db.gid_cache)
        db.group_members;
}

unfoldable pub run_delete_expired_groups : Bool → (now ttl_seconds : ℕ) → Db → Db
run_delete_expired_groups foreign_keys now ttl_seconds db = record db {
  gid_cache = keep (λ (g : GroupRow). is_fresh now ttl_seconds g.cached_at) db.gid_cache;
  group_members =
      cascade foreign_keys
        (keep (λ (g : GroupRow). not (is_fresh now ttl_seconds g.cached_at)) db.gid_cache)
        db.group_members;
}

unfoldable pub run_delete_expired_users : (now ttl_seconds : ℕ) → Db → Db
run_delete_expired_users now ttl_seconds db = record db {
  uid_cache = keep (λ (u : UserRow). is_fresh now ttl_seconds u.cached_at) db.uid_cache;
}

-- gid_cache g JOIN group_members gm ON gm.group_external_id = g.external_id, with the name given: a
-- group row for each of its member rows with that name.
unfoldable pub joined : List GroupRow → List MemberRow → Str → List GroupRow
joined [] ms name = []
joined (g ∷ gs) ms name =
    map (λ _. g) (keep (λ m. belongs_to g.external_id m && str_eq m.member_name name) ms)
    ++ joined gs ms name
