-- ===== src/Nss/InitGroups.antt =====
-- crates/nss_oidc/src/ffi.rs: `_nss_oidc_initgroups_dyn`.
-- The array `*groupsp` is a list, `*start` counts its entries in use, and the sizes are not negative.
use sssd_oidc.Prelude.{
  ℕ, ◌+◌, List, [], ◌∷◌, ◌++◌, Option, none, some, leb, ◌==◌, if◌then◌else◌, any, take, drop,
}
use sssd_oidc.Text.{Str}
use sssd_oidc.Outcome.{Outcome, ok, err, panic}
use sssd_oidc.Database.{Engine}
use sssd_oidc.Scim.{Http}
use sssd_oidc.Service.{ServiceError, lookup_groups_for_user}
use sssd_oidc.Nss.{
  NssStatus, try_again, unavail, not_found, success, erange, NssState, Call, returns, aborts,
}

-- The array and `*start`, with the status and `*errnop`.
pub record Groups : Type 0 where
  pub groups : List ℕ
  pub start : ℕ

pub record GroupsAnswer : Type 0 where
  pub status : NssStatus
  pub errno : ℕ
  pub filled : Groups

-- `*groups_buf.add(i) = gid`
abbrev pub set_at : ℕ → ℕ → List ℕ → List ℕ
set_at i gid groups = take i groups ++ gid ∷ drop (i + 1) groups

abbrev pub push : ℕ → Groups → Groups
push gid filled = record {
  groups = set_at filled.start gid filled.groups;
  start = filled.start + 1;
}

-- The loop over the GIDs of the user.
unfoldable pub add_groups : (group cur_size : ℕ) → List ℕ → Groups → GroupsAnswer
add_groups group cur_size [] filled = record { status = success; errno = 0; filled = filled }
add_groups group cur_size (gid ∷ gids) filled =
    let skip = add_groups group cur_size gids filled in
    let add = add_groups group cur_size gids (push gid filled) in
    if gid == group
    then skip
    else if any (λ g. g == gid) (take filled.start filled.groups)
    then skip
    else if leb cur_size filled.start
    then record { status = try_again; errno = erange; filled = filled }
    else add

-- From the answer of the service on.
unfoldable pub fill_groups :
    (group cur_size : ℕ) → Outcome ServiceError (List ℕ) → Groups → Call GroupsAnswer
fill_groups group cur_size (ok gids) filled = returns (add_groups group cur_size gids filled)
fill_groups group cur_size (err e) filled =
    returns (record { status = unavail; errno = 0; filled = filled })
fill_groups group cur_size panic filled = aborts

module _ (engine : Engine) (murmur3_32 : Str → ℕ → Option ℕ) (server : Http)
    (to_str : Str → Option Str) where
  unfoldable pub initgroups_dyn :
      (user : Str) (group cur_size : ℕ)
      → Groups
      → Option NssState
      → Call GroupsAnswer × Option NssState
  initgroups_dyn user group cur_size filled get_state =
      let unavailable : Call GroupsAnswer × Option NssState =
        (returns (record { status = unavail; errno = 0; filled = filled }), get_state) in
      elim (to_str user) [
        | none ↦ (returns (record { status = not_found; errno = 0; filled = filled }), get_state)
        | some user_str ↦ elim get_state [
          | none ↦ unavailable
          | some state ↦
              let (gids, svc) =
                lookup_groups_for_user engine murmur3_32 server user_str state.service in
              if state.poisoned
              then unavailable
              else (fill_groups group cur_size gids filled, some (record state { service = svc }))
        ]
      ]
