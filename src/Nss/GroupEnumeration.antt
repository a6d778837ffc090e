-- ===== src/Nss/GroupEnumeration.antt =====
-- crates/nss_oidc/src/ffi.rs: `setgrent`, which lists the groups that `getgrent_r` then gives.
use sssd_oidc.Prelude.{ℕ, List, [], ◌∷◌, Option, none, some}
use sssd_oidc.Text.{Str}
use sssd_oidc.Outcome.{Outcome, ok, err, panic}
use sssd_oidc.Model.{Group}
use sssd_oidc.Database.{Engine}
use sssd_oidc.Scim.{Http, ScimGroup, list_groups}
use sssd_oidc.Cache.Updates.{store_group}
use sssd_oidc.Service.{Service, ServiceError, scim_group_to_model}
use sssd_oidc.Nss.{NssStatus, unavail, success, NssState, Call, returns, aborts}
use sssd_oidc.Nss.Enumeration.{lock}
use sssd_oidc.Nss.GroupBuffer.{GroupEnum}

module _ (engine : Engine) (murmur3_32 : Str → ℕ → Option ℕ) (server : Http) where
  -- One round of the loop of `setgrent`: `rest` is the loop over the groups that follow. A group that
  -- cannot be converted is left out, and a failed write is ignored.
  unfoldable pub keep_group :
      Outcome ServiceError Group
      → Service
      → (Service → Call (List Group × Service))
      → Call (List Group × Service)
  keep_group (ok group) svc rest =
      let others = rest (record svc { cache = (store_group engine group svc.cache).1 }) in
      elim others [ returns (groups, svc') ↦ returns (group ∷ groups, svc') | aborts ↦ aborts ]
  keep_group (err e) svc rest = rest svc
  keep_group panic svc rest = aborts

  unfoldable pub keep_groups : List ScimGroup → Service → Call (List Group × Service)
  unfolding keep_group
  keep_groups [] svc = returns ([], svc)
  keep_groups (sg ∷ scim_groups) svc =
      let (converted, svc') = scim_group_to_model engine murmur3_32 sg svc in
      keep_group converted svc' (keep_groups scim_groups)

  -- With the groups listed.
  unfoldable pub set_groups :
      List ScimGroup → GroupEnum → Option NssState → Call (NssStatus × GroupEnum × Option NssState)
  unfolding keep_groups
  set_groups scim_groups enum_state get_state = elim (lock get_state) [
    | none ↦ returns (unavail, enum_state, get_state)
    | some state ↦ elim (keep_groups scim_groups state.service) [
      | returns (groups, svc) ↦
          returns (success, some (groups, 0), some (record state { service = svc }))
      | aborts ↦ aborts
    ]
  ]

  unfoldable pub setgrent :
      GroupEnum → Option NssState → Call (NssStatus × GroupEnum × Option NssState)
  unfolding set_groups
  setgrent enum_state none = returns (unavail, enum_state, none)
  setgrent enum_state (some state) = elim (list_groups server state.scim) [
    | ok scim_groups ↦ set_groups scim_groups enum_state (some state)
    | err e ↦ returns (unavail, enum_state, some state)
    | panic ↦ aborts
  ]
