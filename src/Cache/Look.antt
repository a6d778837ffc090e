-- ===== src/Cache/Look.antt =====
-- Reads of users in src/cache.rs as looks into their book.
use sssd_oidc.Prelude.{
  ℕ, ◌≡◌, refl, sym, ap, ◌∙◌, Bool, true, false, ◌&&◌, List, [], ◌∷◌, Option, none, some,
  if◌then◌else◌, keep, keep_comm, first, inl, inr, Bool-cases, arith,
}
use sssd_oidc.Outcome.{Outcome, ok}
use sssd_oidc.Model.{User}
use sssd_oidc.Database.Rows.{IsUnique}
use sssd_oidc.Database.{
  UserRow, Db, Engine, clash_users, is_fresh, select_user_by_uid, run_delete_expired_users,
}
use sssd_oidc.Cache.State.{CacheError, Cache}
use sssd_oidc.Cache.Queries.{get_user_by_uid, user_of_row}
use sssd_oidc.Cache.Select.{next_row_nil, next_row_single}
use sssd_oidc.Cache.Holder.{holder, holds_uid, holders}
use sssd_oidc.Cache.Book.{if_fresh, read_entry, look}

-- The holder of a UID among the fresh rows.
pub holder-expired :
    (now ttl_seconds : ℕ) (db : Db) (uid : ℕ)
    → IsUnique clash_users db.uid_cache
    → holder (run_delete_expired_users now ttl_seconds db) uid
      ≡ if_fresh now ttl_seconds (holder db uid)
unfolding holder run_delete_expired_users
holder-expired now ttl_seconds db uid unique =
    let fresh : UserRow → Bool = λ r. is_fresh now ttl_seconds r.cached_at in
    ap first (keep_comm (holds_uid uid) fresh db.uid_cache) ∙ (elim (holders db uid unique) [
      | inl e ↦ rw e (unfold keep in refl)
      | inr (r, e, _) ↦ rw e (unfold keep in ground arith)
    ])

-- What is asked for by UID, among the rows that hold it.
keep-and :
    (p q : UserRow → Bool) (rows : List UserRow)
    → keep (λ r. p r && q r) rows ≡ keep q (keep p rows)
unfolding keep
keep-and p q [] = refl
keep-and p q (r ∷ rows) = elim (Bool-cases (p r)) [
  | inl e ↦ rw (e, keep-and p q rows) refl
  | inr e ↦ rw (e, keep-and p q rows) refl
]

keep-nil : (p : UserRow → Bool) → keep p [] ≡ []
unfolding keep
keep-nil p = refl

keep_one : (p : UserRow → Bool) (r : UserRow) → p r ≡ true → keep p (r ∷ []) ≡ r ∷ []
unfolding keep
keep_one p r h = rw h refl

keep_none : (p : UserRow → Bool) (r : UserRow) → p r ≡ false → keep p (r ∷ []) ≡ []
unfolding keep
keep_none p r h = rw h refl

-- The entry, by its freshness.
abbrev read_entry_if : Bool → UserRow → Option User
read_entry_if fresh r = elim (if fresh then some r else none) [
  | some r ↦ some (user_of_row r)
  | none ↦ none
]

pub read_fresh :
    (now ttl : ℕ) (r : UserRow)
    → is_fresh now ttl r.cached_at ≡ true
    → read_entry now ttl (some r) ≡ some (user_of_row r)
read_fresh now ttl r h = ap (λ b. read_entry_if b r) h

pub read_stale :
    (now ttl : ℕ) (r : UserRow)
    → is_fresh now ttl r.cached_at ≡ false
    → read_entry now ttl (some r) ≡ none
read_stale now ttl r h = ap (λ b. read_entry_if b r) h

-- A read of the table is a look into its book.
pub get_user_by_uid-look :
    (reader : Engine) (cache : Cache) (uid : ℕ)
    → IsUnique clash_users cache.conn.uid_cache
    → let statement = select_user_by_uid uid cache.ttl_seconds in
      reader.fault statement cache.conn ≡ none
      → get_user_by_uid reader cache uid
        ≡ ok (look (reader.clock statement cache.conn) cache.ttl_seconds (holder cache.conn) uid)
unfolding get_user_by_uid holder
get_user_by_uid-look reader cache uid unique works =
    let statement = select_user_by_uid uid cache.ttl_seconds in
    let fresh : UserRow → Bool =
      λ r. is_fresh (reader.clock statement cache.conn) cache.ttl_seconds r.cached_at in
    let asked = keep-and (holds_uid uid) fresh cache.conn.uid_cache in
    let now = reader.clock statement cache.conn in
    let read : List UserRow → Outcome CacheError (Option User) =
      λ rows. ok (read_entry now cache.ttl_seconds (first rows)) in
    elim (holders cache.conn uid unique) [
      | inl e ↦
          let empty : keep (λ r. holds_uid uid r && fresh r) cache.conn.uid_cache ≡ [] =
            asked ∙ ap (keep fresh) e ∙ keep-nil fresh in
          let found : get_user_by_uid reader cache uid ≡ read [] =
            rw (empty, next_row_nil reader statement cache.conn works) refl in
          found ∙ ap read (sym e)
      | inr (r, e, _) ↦ elim (Bool-cases (fresh r)) [
        | inl here ↦
            let alone : keep (λ r. holds_uid uid r && fresh r) cache.conn.uid_cache ≡ r ∷ [] =
              asked ∙ ap (keep fresh) e ∙ keep_one fresh r here in
            let found : get_user_by_uid reader cache uid ≡ read (r ∷ []) =
              rw (alone, next_row_single reader statement cache.conn r works)
                (ap ok (sym (read_fresh now cache.ttl_seconds r here))) in
            found ∙ ap read (sym e)
        | inr stale ↦
            let empty : keep (λ r. holds_uid uid r && fresh r) cache.conn.uid_cache ≡ [] =
              asked ∙ ap (keep fresh) e ∙ keep_none fresh r stale in
            let found : get_user_by_uid reader cache uid ≡ read (r ∷ []) =
              rw (empty, next_row_nil reader statement cache.conn works)
                (ap ok (sym (read_stale now cache.ttl_seconds r stale))) in
            found ∙ ap read (sym e)
      ]
    ]
