-- ===== src/Nss/GroupListing.antt =====
-- `setgrent` of crates/nss_oidc: which groups it lists.
use sssd_oidc.Prelude.{ℕ, ◌≡◌, List, [], ◌∷◌, Option, some}
use sssd_oidc.Text.{Str}
use sssd_oidc.Outcome.{ok, err}
use sssd_oidc.Model.{Group}
use sssd_oidc.Database.{Engine}
use sssd_oidc.Service.Invariant.{with_group}
use sssd_oidc.Scim.{Http, ScimGroup}
use sssd_oidc.Service.{Service, ServiceError, scim_group_to_model, member_names}
use sssd_oidc.Nss.{NssState}
use sssd_oidc.Nss.GroupBuffer.{GroupEnum}

module _ (engine : Engine) (murmur3_32 : Str → ℕ → Option ℕ) where
  -- The groups are those of the directory, in its order, but for those whose conversion fails when their
  -- turn comes: in the service that has stored the groups listed before them.
  pub data ListedGroups : Service → List ScimGroup → List Group → Service → Type 0 where
    nil : {svc : Service} → ListedGroups svc [] [] svc
    kept :
        {svc svc' : Service} {sg : ScimGroup} {group : Group} {scim_groups : List ScimGroup}
        {groups : List Group}
        → (scim_group_to_model engine murmur3_32 sg svc).0 ≡ ok group
        → group.external_id ≡ sg.id
        → group.name ≡ sg.display_name
        → group.members ≡ member_names sg.members
        → ListedGroups (with_group engine group svc) scim_groups groups svc'
        → ListedGroups svc (sg ∷ scim_groups) (group ∷ groups) svc'
    left_out :
        {svc svc' : Service} {sg : ScimGroup} {scim_groups : List ScimGroup} {groups : List Group}
        (e : ServiceError)
        → (scim_group_to_model engine murmur3_32 sg svc).0 ≡ err e
        → ListedGroups svc scim_groups groups svc'
        → ListedGroups svc (sg ∷ scim_groups) groups svc'

  module _ (server : Http) where
    -- What `setgrent` leaves when it succeeds.
    abbrev pub LeavesListedGroups : NssState → GroupEnum → Option NssState → List ScimGroup → Type 0
    LeavesListedGroups state enum_state' state' scim_groups =
        (groups : List Group) × (svc : Service) × (enum_state' ≡ some (groups, 0))
        × (state' ≡ some (record state { service = svc }))
        × ListedGroups state.service scim_groups groups svc
