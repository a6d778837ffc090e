-- ===== src/Cache/Stability.antt =====
-- `resolve_uid` of src/cache.rs over the stored rows, and when what it chooses changes.
use sssd_oidc.Prelude.{
  ℕ, ◌≡◌, ◌≢◌, refl, sym, subst, true, false, ◌∙◌, Option, none, some, ◌==◌, if◌then◌else◌, arith,
  inl, inr, Bool-cases, ap,
}
use sssd_oidc.Text.{Str, str_eq, str_eq_refl, str_eq_symm}
use sssd_oidc.Outcome.{ok}
use sssd_oidc.Model.{User}
use sssd_oidc.Mapping.Range.{IsRange, slot}
use sssd_oidc.Mapping.Probing.{IsFirst, resolve_id-IsFirst_iff}
use sssd_oidc.Database.Rows.{IsUnique}
use sssd_oidc.Database.Unique.{run_replace_user-IsUnique}
use sssd_oidc.Database.{
  UserRow, Engine, replace_user, select_uid_owner, clash_users, run_replace_user,
}
use sssd_oidc.Cache.State.{Cache, cache_error_from_exhausted}
use sssd_oidc.Cache.Queries.{uid_owner, resolve_uid}
use sssd_oidc.Cache.Updates.{store_user}
use sssd_oidc.Cache.RoundTrip.{row_of_user, store_user-ok}
use sssd_oidc.Cache.Holder.{
  answer, holder, unless_owned_by, holder-run_replace_user, uid_owner-holder,
}

-- Statements of `uid_owner` work on this database.
abbrev pub UidReads : Engine → Cache → Type 0
UidReads engine cache = (uid : ℕ) → engine.fault (select_uid_owner uid) cache.conn ≡ none

-- What `answer` says decides the slots that probing passes and the one where it stops.
other_stays :
    (external_id : Str) (held : Option UserRow)
    → answer external_id held ≡ some false
    → answer external_id (unless_owned_by external_id held) ≡ some false
other_stays external_id none h = cc
other_stays external_id (some r) h =
    let e : str_eq external_id r.external_id ≡ false =
      ground (arith, str_eq_symm external_id r.external_id) in
    rw e h

module _ (murmur3_32 : Str → ℕ → Option ℕ) {range_min range_size : ℕ}
    (range : IsRange range_min range_size) (external_id : Str) (hash : ℕ)
    (hashed : murmur3_32 external_id 0 ≡ some hash) where
  module _ (before after : Engine) (cache : Cache) (now : ℕ) (user : User)
      (unique : IsUnique clash_users cache.conn.uid_cache) (reads : UidReads before cache) where
    abbrev stored : Cache
    stored = record cache { conn = run_replace_user now user cache.conn }

    module _ (reads' : UidReads after stored) (same_id : user.external_id ≡ external_id)
        (first_slot : IsFirst range_min range_size hash
          (λ c. uid_owner before cache c external_id)
          0
          user.uid) where
      -- Before and after the write, the answers are read off the holder of the slot.
      answer-before :
          (uid : ℕ)
          → uid_owner before cache uid external_id ≡ ok (answer external_id (holder cache.conn uid))
      answer-before uid = uid_owner-holder before cache uid external_id unique (reads uid)

      answer-after :
          (uid : ℕ)
          → uid_owner after stored uid external_id
            ≡ ok (
                answer external_id (
                  if user.uid == uid
                  then some (row_of_user now user)
                  else unless_owned_by external_id (holder cache.conn uid)))
      answer-after uid = rw (← same_id) (
          uid_owner-holder after stored uid user.external_id
            (run_replace_user-IsUnique now user cache.conn unique) (reads' uid)
          ∙ ap (λ h. ok (answer user.external_id h))
              (holder-run_replace_user now user cache.conn uid unique))

      own_slot : uid_owner after stored user.uid external_id ≡ ok (some true)
      own_slot =
          let mine : str_eq user.external_id external_id ≡ true =
            rw same_id (str_eq_refl external_id) in
          answer-after user.uid ∙ ground arith

      -- An earlier slot is not the user's, since another id holds it.
      earlier_slot :
          (uid : ℕ)
          → uid_owner before cache uid external_id ≡ ok (some false)
          → uid_owner after stored uid external_id ≡ ok (some false)
      earlier_slot uid taken = elim (Bool-cases (user.uid == uid)) [
        | inl same ↦
            let e : user.uid ≡ uid = ground arith in
            ground (
              arith,
              first_slot.accepted,
              subst (λ c. uid_owner before cache c external_id ≡ ok (some false)) (sym e) taken,
            )
        | inr other ↦
            answer-after uid
            ∙ rw other (
                ap ok
                  (other_stays external_id (holder cache.conn uid) (cc (answer-before uid, taken))))
      ]

      pub still-IsFirst :
          IsFirst range_min range_size hash (λ c. uid_owner after stored c external_id) 0 user.uid
      still-IsFirst = record {
        round = first_slot.round;
        after = first_slot.after;
        in_time = first_slot.in_time;
        here = first_slot.here;
        accepted = inr own_slot;
        passed = λ j p q. earlier_slot _ (first_slot.passed j p q);
      }

  -- In a range that fits, where the stored UIDs and external ids are unique and the reads work: once
  -- the user has been stored under the UID that `resolve_uid` chose for its external id,
  -- `resolve_uid` chooses that UID for it again.
  pub resolve_uid-store_user :
      (before writer after : Engine) (cache cache' : Cache) (user : User)
      → IsUnique clash_users cache.conn.uid_cache
      → UidReads before cache
      → UidReads after cache'
      → user.external_id ≡ external_id
      → resolve_uid before murmur3_32 cache external_id range_min range_size ≡ ok user.uid
      → store_user writer user cache ≡ (ok tt, cache')
      → resolve_uid after murmur3_32 cache' external_id range_min range_size ≡ ok user.uid
  unfolding resolve_uid
  resolve_uid-store_user before writer after cache cache' user unique reads reads' same_id chosen
        kept =
      let now = writer.clock (replace_user user) cache.conn in
      let e = store_user-ok writer cache user kept in
      let f =
        (resolve_id-IsFirst_iff murmur3_32 range external_id hash hashed
            (λ c. uid_owner before cache c external_id) user.uid).0
          chosen in
      subst
        (λ (c : Cache).
          UidReads after c
          → resolve_uid after murmur3_32 c external_id range_min range_size ≡ ok user.uid)
        (sym e)
        (λ r.
          (resolve_id-IsFirst_iff murmur3_32 range external_id hash hashed
              (λ c.
                uid_owner after (record cache { conn = run_replace_user now user cache.conn }) c
                  external_id)
              user.uid).1
            (still-IsFirst before after cache now user unique reads r same_id f))
        reads'

  -- In a range that fits u32 and has at most 2^31 ids, where the stored UIDs and external ids are unique
  -- and the reads work: if no row holds the first slot that `external_id` hashes to, the UID
  -- `u` at which the table already has `external_id` is abandoned: `resolve_uid` answers the first
  -- slot, which is another UID.
  pub resolve_uid_abandons :
      (engine : Engine) (cache : Cache) (u : ℕ) (row : UserRow)
      → IsUnique clash_users cache.conn.uid_cache
      → UidReads engine cache
      → holder cache.conn u ≡ some row
      → row.external_id ≡ external_id
      → holder cache.conn (slot range_min range_size hash 0) ≡ none
      → (resolve_uid engine murmur3_32 cache external_id range_min range_size
          ≡ ok (slot range_min range_size hash 0))
        × (slot range_min range_size hash 0 ≢ u)
  unfolding resolve_uid
  resolve_uid_abandons engine cache u row unique reads held mine free = (
    (resolve_id-IsFirst_iff murmur3_32 range external_id hash hashed
          (λ c. uid_owner engine cache c external_id) (slot range_min range_size hash 0)).1
        (record {
          round = 0;
          after = omega arith;
          in_time = range.nonempty;
          here = refl;
          accepted = inl (uid_owner-holder engine cache _ external_id unique (reads _) ∙ rw free);
          passed = λ j p q. absurd (omega arith);
        }),
    (λ e. cc (ap (holder cache.conn) e)),
  )
