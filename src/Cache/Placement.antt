-- ===== src/Cache/Placement.antt =====
-- The users of src/cache.rs at their slots.
use sssd_oidc.Prelude.{ℕ, ◌≡◌, sym, subst, Bool, true, Option, some}
use sssd_oidc.Text.{Str}
use sssd_oidc.Outcome.{ok}
use sssd_oidc.Model.{User}
use sssd_oidc.Mapping.Probing.{IsFirst}
use sssd_oidc.Database.Rows.{IsUnique}
use sssd_oidc.Database.{UserRow, Db, clash_users, run_replace_user}
use sssd_oidc.Cache.RoundTrip.{row_of_user}
use sssd_oidc.Cache.Holder.{told, holder}
use sssd_oidc.Cache.Slots.{
  AreAtSlots, held_by, one_number, tells-after, tells-own, upsert-AreAtSlots,
}

abbrev id_of : UserRow → Str
id_of r = r.external_id

abbrev uid_of : UserRow → ℕ
uid_of r = r.uid

module _ (murmur3_32 : Str → ℕ → Option ℕ) (range_min range_size : ℕ) where
  -- Every user lies at the first slot of its external id that no other external id holds.
  unfoldable pub IsPlaced : Db → Type 0
  IsPlaced db = AreAtSlots id_of uid_of murmur3_32 range_min range_size db.uid_cache

  -- It is a property of the table of users.
  pub IsPlaced-same : (db db' : Db) → db'.uid_cache ≡ db.uid_cache → IsPlaced db → IsPlaced db'
  unfolding IsPlaced
  IsPlaced-same db db' same h =
      subst (AreAtSlots id_of uid_of murmur3_32 range_min range_size) (sym same) h

  -- Rows of one external id lie at one UID.
  pub one_uid :
      (db : Db) (uid uid' : ℕ) (r r' : UserRow)
      → IsPlaced db
      → holder db uid ≡ some r
      → holder db uid' ≡ some r'
      → r.external_id ≡ r'.external_id
      → uid ≡ uid'
  unfolding IsPlaced holder held_by
  one_uid db uid uid' r r' placed =
      one_number id_of uid_of murmur3_32 range_min range_size db.uid_cache uid uid' r r' placed

  module _ (now : ℕ) (user : User) (db : Db) (unique : IsUnique clash_users db.uid_cache)
      (placed : IsPlaced db) (hash : ℕ) (hashed : murmur3_32 user.external_id 0 ≡ some hash)
      (chosen : IsFirst range_min range_size hash (told db user.external_id) 0 user.uid) where
    -- What the table tells of a UID that a row holds stays.
    pub told-after :
        (external_id : Str) (uid : ℕ) (mine : Bool)
        → told db external_id uid ≡ ok (some mine)
        → told (run_replace_user now user db) external_id uid ≡ ok (some mine)
    unfolding IsPlaced holder held_by run_replace_user
    told-after external_id uid mine =
        tells-after id_of uid_of murmur3_32 range_min range_size (row_of_user now user) db.uid_cache
          unique placed hash hashed chosen external_id uid mine

    -- The external id of the user is at the UID that it was stored under.
    pub told-own : told (run_replace_user now user db) user.external_id user.uid ≡ ok (some true)
    unfolding IsPlaced holder held_by run_replace_user
    told-own =
        tells-own id_of uid_of murmur3_32 range_min range_size (row_of_user now user) db.uid_cache
          unique placed hash hashed chosen

    -- Storing the user where the probing puts it leaves every row at its slot.
    pub run_replace_user-IsPlaced : IsPlaced (run_replace_user now user db)
    unfolding IsPlaced holder held_by run_replace_user
    run_replace_user-IsPlaced =
        upsert-AreAtSlots id_of uid_of murmur3_32 range_min range_size (row_of_user now user)
          db.uid_cache unique placed hash hashed chosen
