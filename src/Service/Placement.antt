-- ===== src/Service/Placement.antt =====
-- External ids and their UIDs, over the methods of src/service.rs.
use sssd_oidc.Prelude.{
  ℕ, ◌≡◌, refl, sym, subst, ap, ◌∙◌, Bool, true, false, Option, none, some, inl, inr, ◌==◌,
  Bool-cases, Option-cases, arith,
}
use sssd_oidc.Text.{Str, str_eq, str_eq_iff, str_eq_refl}
use sssd_oidc.Outcome.{ok}
use sssd_oidc.Exec.Success.{with_final}
use sssd_oidc.Model.{User, Group}
use sssd_oidc.Config.{MappingConfig}
use sssd_oidc.Mapping.Range.{IsRange}
use sssd_oidc.Mapping.Probing.{IsFirst}
use sssd_oidc.Database.Rows.{IsUnique}
use sssd_oidc.Database.Unique.{run_replace_user-IsUnique}
use sssd_oidc.Database.{UserRow, Db, Engine, clash_users, run_replace_user}
use sssd_oidc.Cache.Updates.{store_group}
use sssd_oidc.Service.StoredUser.{stored-cases}
use sssd_oidc.Cache.UserTable.{Keeps-store_group}
use sssd_oidc.Cache.Holder.{answer, told, holder, holder_same}
use sssd_oidc.Cache.Placement.{
  IsPlaced, IsPlaced-same, one_uid, told-after, told-own, run_replace_user-IsPlaced,
}
use sssd_oidc.Scim.{ScimUser}
use sssd_oidc.Service.{Service, scim_user_to_model}
use sssd_oidc.Service.Converted.{model-ids, resolve_uid-IsFirst}
use sssd_oidc.Service.Invariant.{IsInvariant, with_group}

-- Whether the row that holds the UID is the external id's.
unfoldable pub owns : Db → Str → ℕ → Bool
owns db external_id uid = elim (holder db uid) [
  | some r ↦ str_eq r.external_id external_id
  | none ↦ false
]

pub row_of_owns :
    (db : Db) (external_id : Str) (uid : ℕ)
    → owns db external_id uid ≡ true
    → (r : UserRow) × (holder db uid ≡ some r) × (r.external_id ≡ external_id)
unfolding owns
row_of_owns db external_id uid h = elim (Option-cases (holder db uid)) [
  | inl e ↦ cc (rw (e, owns) at h)
  | inr (r, e) ↦ (r, e, (str_eq_iff r.external_id external_id).0 (rw (e, owns) at h))
]

pub told_of_owns :
    (db : Db) (external_id : Str) (uid : ℕ)
    → owns db external_id uid ≡ true
    → told db external_id uid ≡ ok (some true)
told_of_owns db external_id uid h =
    let (r, e, own) = row_of_owns db external_id uid h in rw (e, own, str_eq_refl external_id) refl

pub owns_of_told :
    (db : Db) (external_id : Str) (uid : ℕ)
    → told db external_id uid ≡ ok (some true)
    → owns db external_id uid ≡ true
unfolding owns
owns_of_told db external_id uid h = elim (Option-cases (holder db uid)) [
  | inl e ↦ cc (rw e at h)
  | inr (r, e) ↦
      let own : str_eq r.external_id external_id ≡ true = cc (rw e at h) in rw (e, owns) own
]

module _ (murmur3_32 : Str → ℕ → Option ℕ) (mapping : MappingConfig) where
  abbrev Placed : Db → Type 0
  Placed = IsPlaced murmur3_32 mapping.uid_range_min mapping.uid_range_size

  -- Every user at its slot.
  pub record IsSettled (svc : Service) : Type 0 where
    pub configured : svc.config.mapping ≡ mapping
    pub unique : IsUnique clash_users svc.cache.conn.uid_cache
    pub placed : Placed svc.cache.conn

  -- And the external id at the UID.
  pub record IsAt (external_id : Str) (uid : ℕ) (svc : Service) : Type 0 where
    pub settled : IsSettled svc
    pub owner : told svc.cache.conn external_id uid ≡ ok (some true)

  -- Then it is at no other.
  pub IsAt-owns :
      (external_id : Str) (uid : ℕ) (svc : Service) (uid' : ℕ)
      → IsAt external_id uid svc
      → owns svc.cache.conn external_id uid' ≡ (uid' == uid)
  unfolding owns
  IsAt-owns external_id uid svc uid' at = elim (Bool-cases (uid' == uid)) [
    | inl same ↦
        let e : uid' ≡ uid = ground arith in
        rw e (owns_of_told svc.cache.conn external_id uid at.owner ∙ ground arith)
    | inr other ↦ elim (Bool-cases (owns svc.cache.conn external_id uid')) [
      | inr e ↦ e ∙ sym other
      | inl e ↦
          let (r, f, g) =
            row_of_owns svc.cache.conn external_id uid
              (owns_of_told svc.cache.conn external_id uid at.owner) in
          let (r', f', g') = row_of_owns svc.cache.conn external_id uid' e in
          let same =
            one_uid murmur3_32 mapping.uid_range_min mapping.uid_range_size svc.cache.conn uid uid'
              r r' at.settled.placed f f' (g ∙ sym g') in
          absurd (ground arith)
    ]
  ]

  module _ (range : IsRange mapping.uid_range_min mapping.uid_range_size) (engine : Engine) where
    -- A user that was converted, and is stored.
    module _ (scim_user : ScimUser) (svc : Service) (user : User)
        (made : (scim_user_to_model engine murmur3_32 scim_user svc).0 ≡ ok user)
        (settled : IsSettled svc) (now : ℕ) where
      abbrev stored : Service
      stored = record svc {
        cache = record svc.cache { conn = run_replace_user now user svc.cache.conn };
      }

      user-IsFirst :
          (hash : ℕ) × (murmur3_32 user.external_id 0 ≡ some hash)
          × IsFirst mapping.uid_range_min mapping.uid_range_size hash
              (told svc.cache.conn user.external_id)
              0
              user.uid
      user-IsFirst =
          let (chosen, _, same_id) =
            model-ids engine murmur3_32 scim_user svc _ user (with_final _ made) in
          resolve_uid-IsFirst engine murmur3_32 svc.cache user.external_id _ _ user.uid range
            settled.unique (rw (← settled.configured, same_id) chosen)

      stored-IsSettled : IsSettled stored
      stored-IsSettled =
          let (hash, hashed, chosen) = user-IsFirst in
          record {
            configured = settled.configured;
            unique = run_replace_user-IsUnique now user svc.cache.conn settled.unique;
            placed =
                run_replace_user-IsPlaced murmur3_32 mapping.uid_range_min mapping.uid_range_size
                  now user svc.cache.conn settled.unique settled.placed hash hashed chosen;
          }

      stored-owner :
          (external_id : Str) (uid : ℕ)
          → told svc.cache.conn external_id uid ≡ ok (some true)
          → told stored.cache.conn external_id uid ≡ ok (some true)
      stored-owner external_id uid owner =
          let (hash, hashed, chosen) = user-IsFirst in
          told-after murmur3_32 mapping.uid_range_min mapping.uid_range_size now user svc.cache.conn
            settled.unique settled.placed hash hashed chosen external_id uid true owner

      pub stored_own : told stored.cache.conn user.external_id user.uid ≡ ok (some true)
      stored_own =
          let (hash, hashed, chosen) = user-IsFirst in
          told-own murmur3_32 mapping.uid_range_min mapping.uid_range_size now user svc.cache.conn
            settled.unique settled.placed hash hashed chosen

    -- Groups leave the table of users.
    group-IsSettled :
        (group : Group) (svc : Service) → IsSettled svc → IsSettled (with_group engine group svc)
    group-IsSettled group svc settled =
        let db = svc.cache.conn in
        let db' = (store_group engine group svc.cache).1.conn in
        let same : db'.uid_cache ≡ db.uid_cache =
          (Keeps-store_group engine db.uid_cache group).at svc.cache refl in
        record {
          configured = settled.configured;
          unique = subst (IsUnique clash_users) (sym same) settled.unique;
          placed = IsPlaced-same murmur3_32 _ _ db db' same settled.placed;
        }

    pub IsSettled-IsInvariant : IsInvariant engine murmur3_32 IsSettled
    IsSettled-IsInvariant = record {
      stores_user = λ scim_user svc user made h.
          stored-cases engine IsSettled user svc h (stored-IsSettled scim_user svc user made h);
      stores_group = λ scim_group svc group made h. group-IsSettled group svc h;
    }

    pub IsAt-IsInvariant :
        (external_id : Str) (uid : ℕ) → IsInvariant engine murmur3_32 (IsAt external_id uid)
    IsAt-IsInvariant external_id uid = record {
      stores_user = λ scim_user svc user made h.
          stored-cases engine (IsAt external_id uid) user svc h (λ now. record {
            settled = stored-IsSettled scim_user svc user made h.settled now;
            owner = stored-owner scim_user svc user made h.settled now external_id uid h.owner;
          });
      stores_group = λ scim_group svc group made h. record {
        settled = group-IsSettled group svc h.settled;
        owner =
            ap (λ r. ok (answer external_id r))
              (holder_same svc.cache.conn (store_group engine group svc.cache).1.conn uid
                ((Keeps-store_group engine svc.cache.conn.uid_cache group).at svc.cache refl))
            ∙ h.owner;
      };
    }
