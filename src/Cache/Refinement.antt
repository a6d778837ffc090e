-- ===== src/Cache/Refinement.antt =====
-- src/cache.rs keeps the book of its users.
use mathlib.Core.Option.{some-injective}
use sssd_oidc.Prelude.{
  ℕ, ◌≡◌, refl, sym, ap, ◌∙◌, Bool, true, false, List, [], ◌∷◌, none, if◌then◌else◌, keep, first,
  inl, inr,
}
use sssd_oidc.Outcome.{Outcome, ok}
use sssd_oidc.Model.{User, Group}
use sssd_oidc.Database.Rows.{IsUnique, IsUnique-keep}
use sssd_oidc.Database.Unique.{run_replace_user-IsUnique}
use sssd_oidc.Database.{
  Engine, clash_users, replace_user, delete_expired_members, delete_expired_groups,
  delete_expired_users, select_user_by_uid, run_delete_expired_users,
}
use sssd_oidc.Cache.State.{CacheError, Cache}
use sssd_oidc.Cache.Queries.{get_user_by_uid}
use sssd_oidc.Cache.Executes.{execute-result}
use sssd_oidc.Cache.Updates.{run, store_user, store_group, purge_expired}
use sssd_oidc.Cache.Holder.{holder, holds_uid, holder-run_replace_user}
use sssd_oidc.Cache.Book.{
  Write, write_user, write_group, expire, if_fresh, enter, look, MethodCall, perform, succeeded,
  after, replay,
}
use sssd_oidc.Cache.UserTable.{expires_members, expires_groups, run-users, Keeps-store_group}
use sssd_oidc.Cache.Look.{holder-expired, get_user_by_uid-look}

-- A call has left a table of users whose book is what the call made of the book before.
record Kept (now : ℕ) (write : Write) (cache : Cache) (r : Outcome CacheError (Unit {0}) × Cache)
    : Type 0 where
  unique : IsUnique clash_users r.1.conn.uid_cache
  book :
      holder r.1.conn
      ≡ (if succeeded r.0 then enter now write (holder cache.conn) else holder cache.conn)

either : {A : Type 0} (b : Bool) (a : A) → a ≡ (if b then a else a)
either true a = refl
either false a = refl

-- The same rows, the same book.
same_rows :
    (now : ℕ) (group : Group) (cache : Cache) (r : Outcome CacheError (Unit {0}) × Cache)
    → IsUnique clash_users cache.conn.uid_cache
    → r.1.conn.uid_cache ≡ cache.conn.uid_cache
    → Kept now (write_group group) cache r
unfolding holder
same_rows now group cache r unique same = record {
  unique = rw same unique;
  book =
      ap (λ rows uid. first (keep (holds_uid uid) rows)) same
      ∙ either (succeeded r.0) (holder cache.conn);
}

module _ (c : MethodCall) (cache : Cache) (unique : IsUnique clash_users cache.conn.uid_cache) where
  store_user-Kept :
      (user : User) → Kept c.now (write_user user) cache (store_user c.engine user cache)
  unfolding store_user run succeeded
  store_user-Kept user = elim (execute-result c.engine (replace_user user) cache) [
    | inl (e, failed) ↦ rw failed (record { unique = unique; book = refl })
    | inr (db, ran, done) ↦
        let same = sym (some-injective _ _ ran) in
        rw (done, same, c.clock)
          (record {
            unique = run_replace_user-IsUnique c.now user cache.conn unique;
            book = λ i uid. holder-run_replace_user c.now user cache.conn uid unique i;
          })
  ]

  store_group-Kept :
      (group : Group) → Kept c.now (write_group group) cache (store_group c.engine group cache)
  store_group-Kept group =
      same_rows c.now group cache _ unique
        ((Keeps-store_group c.engine cache.conn.uid_cache group).at cache refl)

  purge_expired-Kept : (ttl : ℕ) → Kept c.now (expire ttl) cache (purge_expired c.engine ttl cache)
  unfolding purge_expired run succeeded holder run_delete_expired_users
  purge_expired-Kept ttl = elim (execute-result c.engine (delete_expired_members ttl) cache) [
    | inl (e, failed) ↦ rw failed (record { unique = unique; book = refl })
    | inr (db₁, ran₁, done₁) ↦
        let cache₁ = record cache { conn = db₁ } in
        let u₁ : db₁.uid_cache ≡ cache.conn.uid_cache =
          run-users c.engine _ (expires_members ttl) cache.conn db₁ ran₁ in
        elim (execute-result c.engine (delete_expired_groups ttl) cache₁) [
          | inl (e, failed) ↦
              rw (done₁, failed)
                (record {
                  unique = rw u₁ unique;
                  book = ap (λ rows uid. first (keep (holds_uid uid) rows)) u₁;
                })
          | inr (db₂, ran₂, done₂) ↦
              let cache₂ = record cache { conn = db₂ } in
              let u₂ : db₂.uid_cache ≡ cache.conn.uid_cache =
                run-users c.engine _ (expires_groups ttl) db₁ db₂ ran₂ ∙ u₁ in
              elim (execute-result c.engine (delete_expired_users ttl) cache₂) [
                | inl (e, failed) ↦
                    rw (done₁, done₂, failed)
                      (record {
                        unique = rw u₂ unique;
                        book = ap (λ rows uid. first (keep (holds_uid uid) rows)) u₂;
                      })
                | inr (db₃, ran₃, done₃) ↦
                    let same = sym (some-injective _ _ ran₃) in
                    let unique₂ : IsUnique clash_users db₂.uid_cache = rw u₂ unique in
                    rw (done₁, done₂, done₃, same, c.clock)
                      (record {
                        unique = IsUnique-keep clash_users _ db₂.uid_cache unique₂;
                        book = λ i uid.
                            (holder-expired c.now ttl db₂ uid unique₂
                                ∙ ap
                                    (λ rows. if_fresh c.now ttl (first (keep (holds_uid uid) rows)))
                                    u₂)
                              i;
                      })
              ]
        ]
  ]

  perform-Kept : (write : Write) → Kept c.now write cache (perform c.engine write cache)
  unfolding perform
  perform-Kept (write_user user) = store_user-Kept user
  perform-Kept (write_group group) = store_group-Kept group
  perform-Kept (expire ttl) = purge_expired-Kept ttl

after-Kept :
    (calls : List MethodCall) (cache : Cache)
    → IsUnique clash_users cache.conn.uid_cache
    → IsUnique clash_users (after calls cache).conn.uid_cache
      × (holder (after calls cache).conn ≡ replay calls cache (holder cache.conn))
unfolding after replay
after-Kept [] cache unique = (unique, refl)
after-Kept (c ∷ calls) cache unique =
    let kept = perform-Kept c cache unique c.write in
    let (unique', same) = after-Kept calls (perform c.engine c.write cache).1 kept.unique in
    (unique', same ∙ ap (λ book. replay calls (perform c.engine c.write cache).1 book) kept.book)

-- After any sequence of `store_user`, `store_group` and `purge_expired`, of which any may fail and in
-- each of which the clock reads one time, on a cache whose UIDs and external ids are unique, a
-- `get_user_by_uid` that does not fail is a look into the book that those calls which succeeded have
-- written, at the reader's clock.
pub get_user_by_uid-replay :
    (calls : List MethodCall) (cache : Cache) (reader : Engine) (uid : ℕ)
    → IsUnique clash_users cache.conn.uid_cache
    → let cache' = after calls cache in
      let statement = select_user_by_uid uid cache'.ttl_seconds in
      reader.fault statement cache'.conn ≡ none
      → get_user_by_uid reader cache' uid
        ≡ ok (
            look
              (reader.clock statement cache'.conn)
              cache'.ttl_seconds
              (replay calls cache (holder cache.conn))
              uid)
get_user_by_uid-replay calls cache reader uid unique works =
    let (unique', same) = after-Kept calls cache unique in
    let cache' = after calls cache in
    let now = reader.clock (select_user_by_uid uid cache'.ttl_seconds) cache'.conn in
    get_user_by_uid-look reader cache' uid unique' works
    ∙ ap (λ book. ok (look now cache'.ttl_seconds book uid)) same
