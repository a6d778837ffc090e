-- ===== src/Nss/Listing.antt =====
-- `setpwent` of crates/nss_oidc: which users it lists.
use sssd_oidc.Prelude.{ℕ, ◌≡◌, List, [], ◌∷◌, Option, some}
use sssd_oidc.Text.{Str}
use sssd_oidc.Outcome.{ok, err}
use sssd_oidc.Model.{User}
use sssd_oidc.Database.{Engine}
use sssd_oidc.Service.Invariant.{with_user}
use sssd_oidc.Cache.Queries
use sssd_oidc.Scim.{Http, ScimUser}
use sssd_oidc.Service.{Service, ServiceError, scim_user_to_model}
use sssd_oidc.Nss.{NssState}
use sssd_oidc.Nss.Enumeration.{UserEnum}

module _ (engine : Engine) (murmur3_32 : Str → ℕ → Option ℕ) where
  -- The users are those of the directory, in its order, but for those whose conversion fails when their
  -- turn comes: in the service that has stored the users listed before them.
  pub data Listed : Service → List ScimUser → List User → Service → Type 0 where
    nil : {svc : Service} → Listed svc [] [] svc
    kept :
        {svc svc' : Service} {su : ScimUser} {user : User} {scim_users : List ScimUser}
        {users : List User}
        → (scim_user_to_model engine murmur3_32 su svc).0 ≡ ok user
        → user.external_id ≡ su.id
        → user.name ≡ su.user_name
        → Listed (with_user engine user svc) scim_users users svc'
        → Listed svc (su ∷ scim_users) (user ∷ users) svc'
    left_out :
        {svc svc' : Service} {su : ScimUser} {scim_users : List ScimUser} {users : List User}
        (e : ServiceError)
        → (scim_user_to_model engine murmur3_32 su svc).0 ≡ err e
        → Listed svc scim_users users svc'
        → Listed svc (su ∷ scim_users) users svc'

  module _ (server : Http) where
    -- What `setpwent` leaves when it succeeds.
    abbrev pub LeavesListed : NssState → UserEnum → Option NssState → List ScimUser → Type 0
    LeavesListed state enum_state' state' scim_users =
        (users : List User) × (svc : Service) × (enum_state' ≡ some (users, 0))
        × (state' ≡ some (record state { service = svc }))
        × Listed state.service scim_users users svc
