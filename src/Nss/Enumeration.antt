-- ===== src/Nss/Enumeration.antt =====
-- crates/nss_oidc: the lookups of users and groups, and the enumerations. The state of an enumeration
-- is `USER_ENUM` or `GROUP_ENUM`: what was listed, and the index of the next entry. Nothing panics
-- while it holds the mutex of an enumeration without ending the process, so that is never poisoned.
use sssd_oidc.Prelude.{
  ℕ, ◌+◌, Bool, true, false, List, [], ◌∷◌, Option, none, some, if◌then◌else◌, drop, first,
}
use sssd_oidc.Text.{Str}
use sssd_oidc.Outcome.{Outcome, ok, err, panic}
use sssd_oidc.Model.{User}
use sssd_oidc.Database.{Engine}
use sssd_oidc.Scim.{Http, ScimUser, list_users}
use sssd_oidc.Cache.Updates.{store_user}
use sssd_oidc.Service.{
  Service, ServiceError, lookup_user_by_name, lookup_user_by_uid, scim_user_to_model,
}
use sssd_oidc.Nss.{
  NssStatus, unavail, not_found, success, NssState, Call, returns, aborts, Answer, refuse,
}
use sssd_oidc.Nss.Buffer.{PasswdStruct, fill_passwd_buf}

abbrev pub UserEnum : Type 0
UserEnum = Option (List User × ℕ)

-- `lock()` of the service: an error if there is no state or the mutex is poisoned.
unfoldable pub lock : Option NssState → Option NssState
lock none = none
lock (some state) = if state.poisoned then none else some state

-- The `match` on what the service found.
unfoldable pub passwd_answer :
    (buflen : ℕ) → List ℕ → Outcome ServiceError (Option User) → Call (Answer PasswdStruct)
passwd_answer buflen bytes (ok (some user)) = returns (fill_passwd_buf user buflen bytes)
passwd_answer buflen bytes (ok none) = returns (refuse not_found bytes)
passwd_answer buflen bytes (err e) = returns (refuse unavail bytes)
passwd_answer buflen bytes panic = aborts

module _ (engine : Engine) (murmur3_32 : Str → ℕ → Option ℕ) (server : Http) where
  unfoldable pub by_name :
      (to_str : Str → Option Str) (name : Str) (buflen : ℕ)
      → List ℕ
      → Option NssState
      → Call (Answer PasswdStruct) × Option NssState
  by_name to_str name buflen bytes get_state = elim (to_str name) [
    | none ↦ (returns (refuse not_found bytes), get_state)
    | some name_str ↦ elim (lock get_state) [
      | none ↦ (returns (refuse unavail bytes), get_state)
      | some state ↦
          let (found, svc) = lookup_user_by_name engine murmur3_32 server name_str state.service in
          (passwd_answer buflen bytes found, some (record state { service = svc }))
    ]
  ]

  unfoldable pub by_uid :
      (uid buflen : ℕ) → List ℕ → Option NssState → Call (Answer PasswdStruct) × Option NssState
  by_uid uid buflen bytes get_state = elim (lock get_state) [
    | none ↦ (returns (refuse unavail bytes), get_state)
    | some state ↦
        let (found, svc) = lookup_user_by_uid engine murmur3_32 uid state.service in
        (passwd_answer buflen bytes found, some (record state { service = svc }))
  ]

  -- One round of the loop of `setpwent`: `rest` is the loop over the users that follow. A user that
  -- cannot be converted is left out, and a failed write is ignored.
  unfoldable pub keep_user :
      Outcome ServiceError User
      → Service
      → (Service → Call (List User × Service))
      → Call (List User × Service)
  keep_user (ok user) svc rest =
      let others = rest (record svc { cache = (store_user engine user svc.cache).1 }) in
      elim others [ returns (users, svc') ↦ returns (user ∷ users, svc') | aborts ↦ aborts ]
  keep_user (err e) svc rest = rest svc
  keep_user panic svc rest = aborts

  unfoldable pub keep_users : List ScimUser → Service → Call (List User × Service)
  unfolding keep_user
  keep_users [] svc = returns ([], svc)
  keep_users (su ∷ scim_users) svc =
      let (converted, svc') = scim_user_to_model engine murmur3_32 su svc in
      keep_user converted svc' (keep_users scim_users)

  -- With the users listed.
  unfoldable pub set_users :
      List ScimUser → UserEnum → Option NssState → Call (NssStatus × UserEnum × Option NssState)
  unfolding keep_users
  set_users scim_users enum_state get_state = elim (lock get_state) [
    | none ↦ returns (unavail, enum_state, get_state)
    | some state ↦ elim (keep_users scim_users state.service) [
      | returns (users, svc) ↦
          returns (success, some (users, 0), some (record state { service = svc }))
      | aborts ↦ aborts
    ]
  ]

  unfoldable pub setpwent :
      UserEnum → Option NssState → Call (NssStatus × UserEnum × Option NssState)
  unfolding set_users
  setpwent enum_state none = returns (unavail, enum_state, none)
  setpwent enum_state (some state) = elim (list_users server state.scim) [
    | ok scim_users ↦ set_users scim_users enum_state (some state)
    | err e ↦ returns (unavail, enum_state, some state)
    | panic ↦ aborts
  ]

-- `users[*idx]`, and nothing where the index is at the end.
unfoldable pub entry_at : List User → ℕ → Option User
entry_at users idx = first (drop idx users)

unfoldable pub is_success : NssStatus → Bool
is_success success = true
is_success _ = false

unfoldable pub getpwent_r : (buflen : ℕ) → List ℕ → UserEnum → Answer PasswdStruct × UserEnum
unfolding entry_at is_success
getpwent_r buflen bytes none = (refuse unavail bytes, none)
getpwent_r buflen bytes (some (users, idx)) = elim (entry_at users idx) [
  | none ↦ (refuse not_found bytes, some (users, idx))
  | some user ↦
      let filled = fill_passwd_buf user buflen bytes in
      (filled, some (users, if is_success filled.status then idx + 1 else idx))
]

unfoldable pub endpwent : UserEnum → NssStatus × UserEnum
endpwent enum_state = (success, none)
