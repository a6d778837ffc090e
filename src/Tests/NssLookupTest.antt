-- ===== src/Tests/NssLookupTest.antt =====
-- Runs of the entry points of crates/nss_oidc.
use sssd_oidc.Prelude.{none, ℕ, false, List, [], ◌∷◌, ◌++◌, Option, some, inl}
use sssd_oidc.Text.{Str, ascii}
use sssd_oidc.Scim.{transport, Http}
use sssd_oidc.Service.{Service, lookup_user_by_name}
use sssd_oidc.Nss.{NssState, returns}
use sssd_oidc.Nss.{NssStatus, Call, aborts}
use sssd_oidc.Nss.Enumeration.{UserEnum, setpwent}
use sssd_oidc.Tests.Fixtures.{engine_at, hash_7}
use sssd_oidc.Tests.Server.{server, service}

abbrev unreachable : Http
unreachable = record server { call = λ request. inl (transport 111) }

abbrev pub as_is : Str → Option Str
as_is s = some s

abbrev pub state : NssState
state = record { scim = service.scim; service = service; poisoned = false }

abbrev later : Service
later = (lookup_user_by_name (engine_at 100) hash_7 server (ascii "alice") service).1

abbrev ten : List ℕ
ten = 0 ∷ 0 ∷ 0 ∷ 0 ∷ 0 ∷ 0 ∷ 0 ∷ 0 ∷ 0 ∷ 0 ∷ []

abbrev lent : List ℕ
lent = ten ++ ten ++ ten ++ ten

abbrev state_of : Call (NssStatus × UserEnum × Option NssState) → NssState
state_of (returns (status, enum_state, some s)) = s
state_of (returns (status, enum_state, none)) = state
state_of aborts = state

abbrev after : NssState
after = state_of (setpwent (engine_at 100) hash_7 server none (some state))
