-- ===== src/Service/SameUid.antt =====
-- `lookup_user_by_name` of src/service.rs where SCIM answers with a user, and the UIDs.
use sssd_oidc.Prelude.{ℕ, ◌≡◌, sym, subst, ap, ◌∙◌, ◌↔◌, true, Option, some, arith}
use sssd_oidc.Text.{Str}
use sssd_oidc.Outcome.{ok}
use sssd_oidc.Exec.Success.{with_final}
use sssd_oidc.Model.{User}
use sssd_oidc.Config.{MappingConfig}
use sssd_oidc.Mapping.Range.{IsRange}
use sssd_oidc.Database.{Db, Engine, replace_user}
use sssd_oidc.Cache.Holder.{told}
use sssd_oidc.Cache.RoundTrip.{store_user-ok}
use sssd_oidc.Scim.{ScimUser, Http, get_user_by_name}
use sssd_oidc.Service.{Service, lookup_user_by_name}
use sssd_oidc.Service.Converted.{model-ids}
use sssd_oidc.Service.Methods.{Keeps-lookup_user_by_name}
use sssd_oidc.Service.Online.{take_user-made, taken_user, stored_user}
use sssd_oidc.Service.Placement.{
  owns, row_of_owns, owns_of_told, IsSettled, IsAt, IsAt-owns, stored_own, IsSettled-IsInvariant,
  IsAt-IsInvariant,
}

-- A UID is one external id's.
told_unique :
    (db : Db) (external_id external_id' : Str) (uid : ℕ)
    → told db external_id uid ≡ ok (some true)
    → told db external_id' uid ≡ ok (some true)
    → external_id ≡ external_id'
told_unique db external_id external_id' uid h h' =
    let (r, e, own) = row_of_owns db external_id uid (owns_of_told db external_id uid h) in
    let (r', e', own') = row_of_owns db external_id' uid (owns_of_told db external_id' uid h') in
    let same : r ≡ r' = cc (e, e') in sym own ∙ ap (λ x. x.external_id) same ∙ own'

-- Two external ids at their UIDs.
pub IsAt-iff :
    (murmur3_32 : Str → ℕ → Option ℕ) (mapping : MappingConfig) (external_id external_id' : Str)
    (uid uid' : ℕ) (svc : Service)
    → IsAt murmur3_32 mapping external_id uid svc
    → IsAt murmur3_32 mapping external_id' uid' svc
    → (external_id ≡ external_id') ↔ (uid ≡ uid')
IsAt-iff murmur3_32 mapping external_id external_id' uid uid' svc at at' = (
  (λ same.
      let own : owns svc.cache.conn external_id' uid ≡ true =
        owns_of_told svc.cache.conn external_id' uid (rw (← same) at.owner) in
      let answer = IsAt-owns murmur3_32 mapping external_id' uid' svc uid at' in ground arith),
  (λ same.
      told_unique svc.cache.conn external_id external_id' uid' (rw (← same) at.owner) at'.owner),
)

module _ (murmur3_32 : Str → ℕ → Option ℕ) (mapping : MappingConfig)
    (range : IsRange mapping.uid_range_min mapping.uid_range_size) (engine : Engine) (server : Http)
    (name : Str) (svc svc' : Service) (scim_user : ScimUser) (user : User)
    (online : get_user_by_name server svc.scim name ≡ ok (some scim_user))
    (found : lookup_user_by_name engine murmur3_32 server name svc ≡ (ok (some user), svc')) where
  pub found-IsAt :
      IsSettled murmur3_32 mapping svc → IsAt murmur3_32 mapping scim_user.id user.uid svc'
  found-IsAt settled =
      let made =
        take_user-made engine murmur3_32 scim_user svc svc' user
          (taken_user engine murmur3_32 server name svc svc' scim_user user online found) in
      let (_, _, same_id) = model-ids engine murmur3_32 scim_user svc _ user (with_final _ made) in
      let kept =
        store_user-ok engine svc.cache user
          (stored_user engine murmur3_32 server name svc svc' scim_user user online found) in
      let now = engine.clock (replace_user user) svc.cache.conn in
      let own = stored_own murmur3_32 mapping range engine scim_user svc user made settled now in
      record {
        settled = subst (IsSettled murmur3_32 mapping) (ap (λ r. r.1) found) (
            (Keeps-lookup_user_by_name (IsSettled murmur3_32 mapping)
                (IsSettled-IsInvariant murmur3_32 mapping range engine) server name).at
              svc settled);
        owner = rw (← same_id) (ap (λ c. told c.conn user.external_id user.uid) kept ∙ own);
      }

  -- If an external id was at a UID before, then it is the external id of the answer exactly if the
  -- UID is that of the answer.
  pub found_iff :
      (external_id : Str) (uid : ℕ)
      → IsAt murmur3_32 mapping external_id uid svc
      → (scim_user.id ≡ external_id) ↔ (user.uid ≡ uid)
  found_iff external_id uid at =
      IsAt-iff murmur3_32 mapping scim_user.id external_id user.uid uid svc' (found-IsAt at.settled)
        (subst (IsAt murmur3_32 mapping external_id uid) (ap (λ r. r.1) found) (
          (Keeps-lookup_user_by_name (IsAt murmur3_32 mapping external_id uid)
              (IsAt-IsInvariant murmur3_32 mapping range engine external_id uid) server name).at
            svc at))
