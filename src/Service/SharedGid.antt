-- ===== src/Service/SharedGid.antt =====
-- The GIDs of the users that src/service.rs takes from SCIM: `resolve_gid` looks for rows of groups,
-- and taking a user writes none.
use sssd_oidc.Prelude.{
  ℕ, ◌%◌, ◌≡◌, ◌≢◌, refl, sym, ap, subst, ◌∙◌, Bool, false, List, Option, none, some, inl, inr,
  Option-cases, Bool-cases, All, All-keep,
}
use sssd_oidc.Text.{Str, str_eq, str_eq_iff}
use sssd_oidc.Outcome.{Outcome, ok}
use sssd_oidc.Exec.Success.{with_final}
use sssd_oidc.Model.{User}
use sssd_oidc.Mapping.Range.{IsRange, slot}
use sssd_oidc.Mapping.Probing.{IsFirst, Accepts}
use sssd_oidc.Mapping.First.{IsFirst-unique, IsFirst-map}
use sssd_oidc.Database.Rows.{IsUnique}
use sssd_oidc.Database.{GroupRow, Engine, clash_groups, run_replace_user}
use sssd_oidc.Cache.State.{Cache, CacheError}
use sssd_oidc.Cache.RoundTrip.{store_user-ok}
use sssd_oidc.Cache.Slots.{held_by, tells, holds, first-All}
use sssd_oidc.Scim.{ScimUser, Http, get_user_by_name}
use sssd_oidc.Service.{Service, gid_external, lookup_user_by_name}
use sssd_oidc.Service.Converted.{model-ids}
use sssd_oidc.Service.GroupOnline.{Configured-IsInvariant}
use sssd_oidc.Service.GroupSlots.{id_of, gid_of, resolve_gid-IsFirst}
use sssd_oidc.Service.Methods.{Keeps-lookup_user_by_name}
use sssd_oidc.Service.Online.{taken_user, take_user-made, stored_user}

-- No row is that of the external id.
abbrev pub IsNotStored : List GroupRow → Str → Type 0
IsNotStored rows id = All (λ (r : GroupRow). r.external_id ≢ id) rows

-- What the query for the owner answers to an external id that no row has.
abbrev tells_stranger : List GroupRow → ℕ → Outcome CacheError (Option Bool)
tells_stranger rows gid =
    ok (elim (held_by id_of gid_of rows gid) [ some r ↦ some false | none ↦ none ])

tells-tells_stranger :
    (rows : List GroupRow) (id : Str) (gid : ℕ)
    → IsNotStored rows id
    → tells id_of gid_of rows id gid ≡ tells_stranger rows gid
unfolding held_by
tells-tells_stranger rows id gid apart = elim (Option-cases (held_by id_of gid_of rows gid)) [
  | inl e ↦ rw e refl
  | inr (r, e) ↦
      let other : r.external_id ≢ id =
        first-All (λ (x : GroupRow). x.external_id ≢ id) _ r
          (All-keep _ (holds id_of gid_of gid) rows apart) e in
      elim (Bool-cases (str_eq r.external_id id)) [
        | inl same ↦ absurd (other ((str_eq_iff r.external_id id).0 same))
        | inr differs ↦ rw (e, differs) refl
      ]
]

module _ {range_min range_size : ℕ} (rows : List GroupRow) where
  -- The slot is the first that no row holds, whoever asks.
  IsFirst-stranger :
      (hash u : ℕ) (id : Str)
      → IsNotStored rows id
      → IsFirst range_min range_size hash (tells id_of gid_of rows id) 0 u
      → IsFirst range_min range_size hash (tells_stranger rows) 0 u
  IsFirst-stranger hash u id apart f =
      IsFirst-map (tells_stranger rows) u f
        (subst Accepts (tells-tells_stranger rows id u apart) f.accepted)
        (λ c h. sym (tells-tells_stranger rows id c apart) ∙ h)

  -- Probing sees the residue of the hash.
  IsFirst-residue :
      (hash hash' u : ℕ)
      → hash % range_size ≡ hash' % range_size
      → IsFirst range_min range_size hash (tells_stranger rows) 0 u
      → IsFirst range_min range_size hash' (tells_stranger rows) 0 u
  IsFirst-residue hash hash' u same f =
      let slots : (j : ℕ) → slot range_min range_size hash j ≡ slot range_min range_size hash' j =
        λ j. rw same refl in
      record {
        round = f.round;
        after = f.after;
        in_time = f.in_time;
        here = sym (slots f.round) ∙ f.here;
        accepted = f.accepted;
        passed = λ j p q. sym (ap (tells_stranger rows) (slots j)) ∙ f.passed j p q;
      }

module _ (murmur3_32 : Str → ℕ → Option ℕ) where
  -- The GID of a user that SCIM has found.
  found-IsFirst :
      (engine : Engine) (server : Http) (name : Str) (svc svc' : Service) (scim_user : ScimUser)
      (user : User) (hash range_min range_size : ℕ)
      → svc.config.mapping.gid_range_min ≡ range_min
      → svc.config.mapping.gid_range_size ≡ range_size
      → IsRange range_min range_size
      → IsUnique clash_groups svc.cache.conn.gid_cache
      → IsNotStored svc.cache.conn.gid_cache (gid_external scim_user)
      → murmur3_32 (gid_external scim_user) 0 ≡ some hash
      → get_user_by_name server svc.scim name ≡ ok (some scim_user)
      → lookup_user_by_name engine murmur3_32 server name svc ≡ (ok (some user), svc')
      → IsFirst range_min range_size hash (tells_stranger svc.cache.conn.gid_cache) 0 user.gid
  found-IsFirst engine server name svc svc' scim_user user hash range_min range_size low size range
        unique apart hashed online found =
      let taken = taken_user engine murmur3_32 server name svc svc' scim_user user online found in
      let made = take_user-made engine murmur3_32 scim_user svc svc' user taken in
      let (_, chosen, _) = model-ids engine murmur3_32 scim_user svc _ user (with_final _ made) in
      let (hash', hashed', f) =
        resolve_gid-IsFirst engine murmur3_32 svc.cache (gid_external scim_user) range_min
          range_size user.gid range unique (rw (← low, ← size) chosen) in
      let one : hash' ≡ hash = cc in
      IsFirst-stranger svc.cache.conn.gid_cache hash user.gid (gid_external scim_user) apart
        (rw (← one) f)

  -- Looking a user up by name leaves the rows of groups and the configuration.
  found-gid_cache :
      (engine : Engine) (server : Http) (name : Str) (svc svc' : Service) (scim_user : ScimUser)
      (user : User)
      → get_user_by_name server svc.scim name ≡ ok (some scim_user)
      → lookup_user_by_name engine murmur3_32 server name svc ≡ (ok (some user), svc')
      → (svc'.cache.conn.gid_cache ≡ svc.cache.conn.gid_cache)
        × (svc'.config.mapping ≡ svc.config.mapping)
  unfolding run_replace_user
  found-gid_cache engine server name svc svc' scim_user user online found =
      let stored = stored_user engine murmur3_32 server name svc svc' scim_user user online found in
      let mapping = svc.config.mapping in
      (
        ap (λ (c : Cache). c.conn.gid_cache) (store_user-ok engine svc.cache user stored),
        subst (λ (s : Service). s.config.mapping ≡ mapping) (ap (λ r. r.1) found)
            ((Keeps-lookup_user_by_name (λ (s : Service). s.config.mapping ≡ mapping)
                (Configured-IsInvariant engine murmur3_32 mapping) server name).at
              svc refl),
      )

  -- If the configured range of GIDs fits u32 and has at most 2^31 ids, and the GIDs and external ids of
  -- the stored groups are unique: two users that SCIM has answered one after the other to lookups by name
  -- that have returned them have the same GID if the external ids that their GIDs are made of (of the
  -- first group, or of the user without groups) have hashes that agree modulo the range size and are those
  -- of no stored group, however many slots stored groups hold and whatever the external ids are.
  pub lookup_user_by_name_shares_gid :
      (engine engine' : Engine) (server server' : Http) (name name' : Str)
      (svc later last : Service) (scim_user scim_user' : ScimUser) (user user' : User)
      (hash hash' : ℕ)
      → IsRange svc.config.mapping.gid_range_min svc.config.mapping.gid_range_size
      → IsUnique clash_groups svc.cache.conn.gid_cache
      → IsNotStored svc.cache.conn.gid_cache (gid_external scim_user)
      → IsNotStored svc.cache.conn.gid_cache (gid_external scim_user')
      → murmur3_32 (gid_external scim_user) 0 ≡ some hash
      → murmur3_32 (gid_external scim_user') 0 ≡ some hash'
      → hash % svc.config.mapping.gid_range_size ≡ hash' % svc.config.mapping.gid_range_size
      → get_user_by_name server svc.scim name ≡ ok (some scim_user)
      → lookup_user_by_name engine murmur3_32 server name svc ≡ (ok (some user), later)
      → get_user_by_name server' later.scim name' ≡ ok (some scim_user')
      → lookup_user_by_name engine' murmur3_32 server' name' later ≡ (ok (some user'), last)
      → user.gid ≡ user'.gid
  lookup_user_by_name_shares_gid engine engine' server server' name name' svc later last scim_user
        scim_user' user user' hash hash' range unique apart apart' hashed hashed' same online found
        online' found' =
      let rows = svc.cache.conn.gid_cache in
      let range_min = svc.config.mapping.gid_range_min in
      let range_size = svc.config.mapping.gid_range_size in
      let (same_rows, same_mapping) =
        found-gid_cache engine server name svc later scim_user user online found in
      let f =
        found-IsFirst engine server name svc later scim_user user hash range_min range_size refl
          refl range unique apart hashed online found in
      let f' =
        found-IsFirst engine' server' name' later last scim_user' user' hash' range_min range_size
          (ap (λ m. m.gid_range_min) same_mapping) (ap (λ m. m.gid_range_size) same_mapping) range
          (subst (IsUnique clash_groups) (sym same_rows) unique)
          (subst (λ rs. IsNotStored rs (gid_external scim_user')) (sym same_rows) apart') hashed'
          online' found' in
      IsFirst-unique user.gid user'.gid (IsFirst-residue rows hash hash' user.gid same f) (
        subst (λ rs. IsFirst range_min range_size hash' (tells_stranger rs) 0 user'.gid) same_rows
          f')
