-- ===== src/Tests/GroupListingTest.antt =====
-- A run of `setgrent` of crates/nss_oidc on a directory of one group.
use sssd_oidc.Prelude.{[], ◌∷◌, Option, none, some, inr}
use sssd_oidc.Text.{ascii}
use sssd_oidc.Model.{Group}
use sssd_oidc.Scim.{Http, ScimGroup}
use sssd_oidc.Nss.{NssState, NssStatus, Call, returns, aborts}
use sssd_oidc.Nss.GroupBuffer.{GroupEnum}
use sssd_oidc.Nss.GroupEnumeration.{setgrent}
use sssd_oidc.Tests.Fixtures.{engine_at, hash_7}
use sssd_oidc.Tests.Server.{server}
use sssd_oidc.Tests.NssLookupTest.{state}

abbrev scim_wheel : ScimGroup
scim_wheel = record {
  id = ascii "g7";
  display_name = ascii "w";
  members = record { value = ascii "a1"; display = some (ascii "a") } ∷ [];
}

abbrev with_wheel : Http
with_wheel = record server {
  read_groups = λ body. inr (record { total_results = 1; resources = scim_wheel ∷ [] });
}

abbrev wheel : Group
wheel = record { external_id = ascii "g7"; name = ascii "w"; gid = 1007; members = ascii "a" ∷ [] }

abbrev state_of : Call (NssStatus × GroupEnum × Option NssState) → NssState
state_of (returns (status, enum_state, some s)) = s
state_of (returns (status, enum_state, none)) = state
state_of aborts = state

abbrev after : NssState
after = state_of (setgrent (engine_at 100) hash_7 with_wheel none (some state))
