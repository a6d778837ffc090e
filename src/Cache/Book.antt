-- ===== src/Cache/Book.antt =====
-- An abstract view of the users in src/cache.rs: a book that maps a UID to the user that holds it and
-- the time at which it was entered.
use sssd_oidc.Prelude.{
  ℕ, ◌≡◌, Bool, true, false, List, [], ◌∷◌, Option, none, some, ◌==◌, if◌then◌else◌,
}
use sssd_oidc.Outcome.{Outcome, ok, err, panic}
use sssd_oidc.Exec.{Exec}
use sssd_oidc.Model.{User, Group}
use sssd_oidc.Database.{UserRow, Statement, Db, Engine, is_fresh}
use sssd_oidc.Cache.State.{Cache, CacheError}
use sssd_oidc.Cache.Updates.{store_user, store_group, purge_expired}
use sssd_oidc.Cache.Queries.{user_of_row}
use sssd_oidc.Cache.RoundTrip.{row_of_user}
use sssd_oidc.Cache.Holder.{unless_owned_by}

abbrev pub Book : Type 0
Book = ℕ → Option UserRow

pub data Write : Type 0 where
  write_user : User → Write
  write_group : Group → Write
  expire : (ttl_seconds : ℕ) → Write

-- The entry is dropped unless it is fresh.
abbrev pub if_fresh : (now ttl_seconds : ℕ) → Option UserRow → Option UserRow
if_fresh now ttl_seconds none = none
if_fresh now ttl_seconds (some r) = if is_fresh now ttl_seconds r.cached_at then some r else none

-- What a write that succeeds does to the book: a user takes its UID, and gives up what it held.
abbrev pub enter : (now : ℕ) → Write → Book → Book
enter now (write_user user) book uid =
    if user.uid == uid
    then some (row_of_user now user)
    else unless_owned_by user.external_id (book uid)
enter now (write_group group) book uid = book uid
enter now (expire ttl_seconds) book uid = if_fresh now ttl_seconds (book uid)

-- What is read from the book.
abbrev pub read_entry : (now ttl_seconds : ℕ) → Option UserRow → Option User
read_entry now ttl_seconds entry = elim (if_fresh now ttl_seconds entry) [
  | some r ↦ some (user_of_row r)
  | none ↦ none
]

abbrev pub look : (now ttl_seconds : ℕ) → Book → ℕ → Option User
look now ttl_seconds book uid = read_entry now ttl_seconds (book uid)

-- A call of a method that writes, in which the clock reads one time.
pub record MethodCall : Type 1 where
  pub engine : Engine
  pub now : ℕ
  pub write : Write
  pub clock : (s : Statement) (db : Db) → engine.clock s db ≡ now

unfoldable pub perform : Engine → Write → Exec Cache CacheError (Unit {0})
perform engine (write_user user) = store_user engine user
perform engine (write_group group) = store_group engine group
perform engine (expire ttl_seconds) = purge_expired engine ttl_seconds

unfoldable pub succeeded : {E A : Type 0} → Outcome E A → Bool
succeeded (ok a) = true
succeeded (err e) = false
succeeded panic = false

-- The cache after the calls, whether they succeed or fail.
unfoldable pub after : List MethodCall → Cache → Cache
unfolding perform
after [] cache = cache
after (c ∷ calls) cache = after calls (perform c.engine c.write cache).1

-- The book after the calls: only those that succeed count.
unfoldable pub replay : List MethodCall → Cache → Book → Book
unfolding perform succeeded
replay [] cache book = book
replay (c ∷ calls) cache book =
    let (result, cache') = perform c.engine c.write cache in
    replay calls cache' (if succeeded result then enter c.now c.write book else book)
