-- ===== src/Cache/Races.antt =====
-- `resolve_uid` and `store_user` of src/cache.rs as two users of one cache file interleave them: each
-- statement is atomic, but nothing holds the slot from the read that finds it free to the write.
use sssd_oidc.Prelude.{ℕ, ◌%◌, ◌≡◌, refl, sym, subst, ap, ◌∙◌, Option, none, some, inl, arith}
use sssd_oidc.Text.{Str}
use sssd_oidc.Outcome.{ok}
use sssd_oidc.Exec.Success.{ok_inj}
use sssd_oidc.Model.{User}
use sssd_oidc.Mapping.Range.{IsRange, slot}
use sssd_oidc.Mapping.Probing.{resolve_id-IsFirst_iff}
use sssd_oidc.Database.Rows.{IsUnique}
use sssd_oidc.Database.Unique.{run_replace_user-IsUnique}
use sssd_oidc.Database.{Engine, replace_user, select_uid_owner, clash_users}
use sssd_oidc.Cache.State.{Cache, cache_error_from_exhausted}
use sssd_oidc.Cache.Queries.{uid_owner, resolve_uid}
use sssd_oidc.Cache.Updates.{store_user}
use sssd_oidc.Cache.RoundTrip.{row_of_user, store_user-ok}
use sssd_oidc.Cache.Holder.{holder, holder-run_replace_user, uid_owner-holder}

module _ (murmur3_32 : Str → ℕ → Option ℕ) {range_min range_size : ℕ}
    (range : IsRange range_min range_size) where
  -- A first slot that is free is chosen.
  resolve_uid_free :
      (engine : Engine) (cache : Cache) (external_id : Str) (hash uid : ℕ)
      → murmur3_32 external_id 0 ≡ some hash
      → IsUnique clash_users cache.conn.uid_cache
      → engine.fault (select_uid_owner (slot range_min range_size hash 0)) cache.conn ≡ none
      → holder cache.conn (slot range_min range_size hash 0) ≡ none
      → resolve_uid engine murmur3_32 cache external_id range_min range_size ≡ ok uid
      → uid ≡ slot range_min range_size hash 0
  unfolding resolve_uid
  resolve_uid_free engine cache external_id hash uid hashed unique reads free chosen =
      let first =
        (resolve_id-IsFirst_iff murmur3_32 range external_id hash hashed
            (λ c. uid_owner engine cache c external_id) (slot range_min range_size hash 0)).1
          (record {
            round = 0;
            after = omega arith;
            in_time = range.nonempty;
            here = refl;
            accepted = inl (
                uid_owner-holder engine cache (slot range_min range_size hash 0) external_id unique
                  reads
                ∙ rw free);
            passed = λ j p q. absurd (omega arith);
          }) in
      ok_inj _ _ (sym chosen ∙ first)

  -- In a range that fits u32 and has at most 2^31 ids, where the stored UIDs and external ids are
  -- unique, the hashes of two external ids agree modulo the size of the range, no row holds the first
  -- slot that they hash to, and the reads of its owner work: if `resolve_uid` chooses a UID for each
  -- before either user is stored, and `store_user` then succeeds with one and after it with the other,
  -- both users have got the same UID, and the second one's row holds it.
  pub resolve_uid_races :
      (engine engine' writer writer' : Engine) (cache cache' cache'' : Cache) (user user' : User)
      (hash hash' : ℕ)
      → murmur3_32 user.external_id 0 ≡ some hash
      → murmur3_32 user'.external_id 0 ≡ some hash'
      → hash' % range_size ≡ hash % range_size
      → IsUnique clash_users cache.conn.uid_cache
      → engine.fault (select_uid_owner (slot range_min range_size hash 0)) cache.conn ≡ none
      → engine'.fault (select_uid_owner (slot range_min range_size hash 0)) cache.conn ≡ none
      → holder cache.conn (slot range_min range_size hash 0) ≡ none
      → resolve_uid engine murmur3_32 cache user.external_id range_min range_size ≡ ok user.uid
      → resolve_uid engine' murmur3_32 cache user'.external_id range_min range_size ≡ ok user'.uid
      → store_user writer user cache ≡ (ok tt, cache')
      → store_user writer' user' cache' ≡ (ok tt, cache'')
      → (user.uid ≡ user'.uid)
        × ((now : ℕ) × (holder cache''.conn user.uid ≡ some (row_of_user now user')))
  resolve_uid_races engine engine' writer writer' cache cache' cache'' user user' hash hash' hashed
        hashed' agree unique reads reads' free chosen chosen' stored stored' =
      let e : slot range_min range_size hash' 0 ≡ slot range_min range_size hash 0 = rw agree in
      let mine =
        resolve_uid_free engine cache user.external_id hash user.uid hashed unique reads free
          chosen in
      let theirs =
        resolve_uid_free engine' cache user'.external_id hash' user'.uid hashed' unique
          (rw e reads') (rw e free) chosen' in
      let same : user.uid ≡ user'.uid = mine ∙ sym e ∙ sym theirs in
      let now = writer'.clock (replace_user user') cache'.conn in
      let unique' : IsUnique clash_users cache'.conn.uid_cache =
        subst (λ (c : Cache). IsUnique clash_users c.conn.uid_cache)
          (sym (store_user-ok writer cache user stored))
          (run_replace_user-IsUnique _ user cache.conn unique) in
      let written =
        ap (λ c. holder c.conn user'.uid) (store_user-ok writer' cache' user' stored')
        ∙ holder-run_replace_user now user' cache'.conn user'.uid unique'
        ∙ ground arith in
      (
        same,
        (now, subst (λ u. holder cache''.conn u ≡ some (row_of_user now user')) (sym same) written),
      )
