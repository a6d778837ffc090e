-- ===== src/Cache/Holder.antt =====
-- The UID table of src/cache.rs as a partial function: which row holds a UID.
use sssd_oidc.Prelude.{
  ℕ, ◌≡◌, refl, Bool, true, ◌∙◌, ◌⊎◌, [], ◌∷◌, Option, none, some, ◌==◌, if◌then◌else◌, keep, arith,
  inl, inr, Bool-cases, first, sym, Option-cases, ap,
}
use sssd_oidc.Text.{Str, str_eq}
use sssd_oidc.Outcome.{Outcome, ok, err}
use sssd_oidc.Model.{User}
use sssd_oidc.Database.Rows.{upsert, keep-upsert_self, keep-upsert_apart, keep_unique, IsUnique}
use sssd_oidc.Database.{UserRow, Db, Engine, select_uid_owner, clash_users, run_replace_user}
use sssd_oidc.Cache.State.{Cache, CacheError, sqlite}
use sssd_oidc.Cache.Queries.{uid_owner}
use sssd_oidc.Cache.Select.{next_row_nil, next_row_single, next_row_fails}
use sssd_oidc.Cache.RoundTrip.{row_of_user}

abbrev pub holds_uid : ℕ → UserRow → Bool
holds_uid uid r = r.uid == uid

unfoldable pub holder : Db → ℕ → Option UserRow
holder db uid = first (keep (holds_uid uid) db.uid_cache)

pub holder_same :
    (db db' : Db) (uid : ℕ) → db'.uid_cache ≡ db.uid_cache → holder db' uid ≡ holder db uid
unfolding holder
holder_same db db' uid same = ap (λ rows. first (keep (holds_uid uid) rows)) same

-- The answer of `uid_owner` for the row that holds the UID.
abbrev pub answer : Str → Option UserRow → Option Bool
answer external_id held = elim held [
  | some owner ↦ some (str_eq owner.external_id external_id)
  | none ↦ none
]

-- What the table tells the probing, when the reads work.
abbrev pub told : Db → Str → ℕ → Outcome CacheError (Option Bool)
told db external_id uid = ok (answer external_id (holder db uid))

-- The rows of another external id.
abbrev pub unless_owned_by : Str → Option UserRow → Option UserRow
unless_owned_by external_id none = none
unless_owned_by external_id (some r) = if str_eq external_id r.external_id then none else some r

-- The rows that hold a UID are one or none.
pub holders :
    (db : Db) (uid : ℕ)
    → IsUnique clash_users db.uid_cache
    → (keep (holds_uid uid) db.uid_cache ≡ [])
      ⊎ ((r : UserRow) × (keep (holds_uid uid) db.uid_cache ≡ r ∷ []) × (holds_uid uid r ≡ true))
holders db uid unique =
    keep_unique clash_users (holds_uid uid) db.uid_cache unique (λ a b h k. ground arith)

-- In a table whose UIDs and external ids are unique, `run_replace_user` updates the partial function
-- from UIDs to the rows that hold them: the UID goes to the new row, and every
-- other UID that the external id held is given up.
pub holder-run_replace_user :
    (now : ℕ) (user : User) (db : Db) (uid : ℕ)
    → IsUnique clash_users db.uid_cache
    → holder (run_replace_user now user db) uid ≡ (
        if user.uid == uid
        then some (row_of_user now user)
        else unless_owned_by user.external_id (holder db uid))
unfolding holder run_replace_user
holder-run_replace_user now user db uid unique =
    let row = row_of_user now user in
    elim (Bool-cases (user.uid == uid)) [
      | inl same ↦
          let alone : keep (holds_uid uid) (upsert clash_users row db.uid_cache) ≡ row ∷ [] =
            keep-upsert_self clash_users row (holds_uid uid) db.uid_cache (λ r h. ground arith)
            ∙ ground arith in
          rw (same, alone)
      | inr other ↦
          rw (keep-upsert_apart clash_users row (holds_uid uid) db.uid_cache other)
            (elim (holders db uid unique) [
              | inl e ↦ rw (other, e) (unfold keep in refl)
              | inr (r, e, here) ↦ rw (other, e) (unfold keep in ground arith)
            ])
    ]

-- What `uid_owner` answers, in such a table, if its statement does not fail.
pub uid_owner-holder :
    (engine : Engine) (cache : Cache) (uid : ℕ) (external_id : Str)
    → IsUnique clash_users cache.conn.uid_cache
    → engine.fault (select_uid_owner uid) cache.conn ≡ none
    → uid_owner engine cache uid external_id ≡ told cache.conn external_id uid
unfolding uid_owner holder
uid_owner-holder engine cache uid external_id unique works = elim (holders cache.conn uid unique) [
  | inl e ↦ rw (e, next_row_nil engine (select_uid_owner uid) cache.conn works)
  | inr (r, e, _) ↦ rw (e, next_row_single engine (select_uid_owner uid) cache.conn r works)
]

-- A read that has worked has told the truth.
pub uid_owner-told :
    (engine : Engine) (cache : Cache) (uid : ℕ) (external_id : Str) (held : Option Bool)
    → IsUnique clash_users cache.conn.uid_cache
    → uid_owner engine cache uid external_id ≡ ok held
    → told cache.conn external_id uid ≡ ok held
unfolding uid_owner
uid_owner-told engine cache uid external_id held unique h =
    elim (Option-cases (engine.fault (select_uid_owner uid) cache.conn)) [
      | inl works ↦ sym (uid_owner-holder engine cache uid external_id unique works) ∙ h
      | inr (x, e) ↦
          let fails : uid_owner engine cache uid external_id ≡ err (sqlite x) =
            rw (next_row_fails engine (select_uid_owner uid) cache.conn x _ e) refl in
          cc (fails, h)
    ]
