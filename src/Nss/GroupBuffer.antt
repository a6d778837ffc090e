-- ===== src/Nss/GroupBuffer.antt =====
-- crates/nss_oidc/src/group.rs: `fill_group_buf` and the lookups of groups.
-- Pointers are of 8 bytes, least significant first. `base` is the address of the lent buffer, so a
-- string at an offset has the address `base + offset`; the code aligns the offset.
use sssd_oidc.Prelude.{
  ℕ, zero, suc, ◌+◌, ◌*◌, ◌-◌, ◌/◌, ◌%◌, not, List, [], ◌∷◌, Option, none, some, ltb, ◌==◌,
  if◌then◌else◌, length,
}
use sssd_oidc.Text.{Str, ascii}
use sssd_oidc.Outcome.{Outcome, ok, err, panic}
use sssd_oidc.Exec.{Exec, pure, ◌>>=◌}
use sssd_oidc.Model.{Group}
use sssd_oidc.Database.{Engine}
use sssd_oidc.Scim.{Http}
use sssd_oidc.Service.{ServiceError, lookup_group_by_name, lookup_group_by_gid}
use sssd_oidc.Nss.{
  NssStatus, unavail, not_found, success, NssState, Call, returns, aborts, Answer, refuse,
}
use sssd_oidc.Nss.Buffer.{Buffer, TooSmall, too_small, copy_to, write_str, answer}
use sssd_oidc.Nss.Enumeration.{lock, is_success}

-- `struct group`: the strings and the array as offsets into the buffer
pub record GroupStruct : Type 0 where
  pub gr_name : ℕ
  pub gr_passwd : ℕ
  pub gr_gid : ℕ
  pub gr_mem : ℕ

abbrev pub pointer_size : ℕ
pointer_size = 8

-- The bytes of a pointer.
unfoldable pub pointer_bytes : (size : ℕ) → (address : ℕ) → List ℕ
pointer_bytes zero address = []
pointer_bytes (suc size) address = (address % 256) ∷ pointer_bytes size (address / 256)

unfoldable pub write_members : (buflen : ℕ) → List Str → Exec Buffer TooSmall (List ℕ)
write_members buflen [] = pure []
write_members buflen (member ∷ members) = do
  pointer ← write_str buflen member
  member_ptrs ← write_members buflen members
  pure (pointer ∷ member_ptrs)

unfoldable pub align : (offset : ℕ) → ℕ
align offset =
    let misalign = offset % pointer_size in
    if not (misalign == 0) then offset + (pointer_size - misalign) else offset

-- The loop that writes the pointers, and NULL after them, from `at` on.
unfoldable pub write_pointers : (base at : ℕ) → List ℕ → List ℕ → List ℕ
unfolding pointer_bytes
write_pointers base at [] bytes = copy_to at (pointer_bytes pointer_size 0) bytes
write_pointers base at (pointer ∷ member_ptrs) bytes =
    write_pointers base (at + pointer_size) member_ptrs
      (copy_to at (pointer_bytes pointer_size (base + pointer)) bytes)

-- The array behind the strings, if there is room.
unfoldable pub write_array : (base buflen : ℕ) → List ℕ → Exec Buffer TooSmall ℕ
unfolding align write_pointers
write_array base buflen member_ptrs buffer =
    let offset = align buffer.offset in
    let ptrs_needed = (length member_ptrs + 1) * pointer_size in
    if ltb buflen (offset + ptrs_needed)
    then (err too_small, record { bytes = buffer.bytes; offset = offset })
    else (
      ok offset,
      record { bytes = write_pointers base offset member_ptrs buffer.bytes; offset = offset },
    )

unfoldable pub write_group : (base buflen : ℕ) → Group → Exec Buffer TooSmall GroupStruct
unfolding write_members write_array
write_group base buflen grp = do
  gr_name ← write_str buflen grp.name
  gr_passwd ← write_str buflen (ascii "x")
  member_ptrs ← write_members buflen grp.members
  gr_mem ← write_array base buflen member_ptrs
  pure (record { gr_name = gr_name; gr_passwd = gr_passwd; gr_gid = grp.gid; gr_mem = gr_mem })

unfoldable pub fill_group_buf : Group → (base buflen : ℕ) → List ℕ → Answer GroupStruct
unfolding write_group
fill_group_buf grp base buflen bytes =
    answer (write_group base buflen grp (record { bytes = bytes; offset = 0 }))

-- The `match` on what the service found.
unfoldable pub group_answer :
    (base buflen : ℕ) → List ℕ → Outcome ServiceError (Option Group) → Call (Answer GroupStruct)
group_answer base buflen bytes (ok (some grp)) = returns (fill_group_buf grp base buflen bytes)
group_answer base buflen bytes (ok none) = returns (refuse not_found bytes)
group_answer base buflen bytes (err e) = returns (refuse unavail bytes)
group_answer base buflen bytes panic = aborts

module _ (engine : Engine) (murmur3_32 : Str → ℕ → Option ℕ) (server : Http) where
  unfoldable pub group_by_c_name :
      (to_str : Str → Option Str) (name : Str) (base buflen : ℕ)
      → List ℕ
      → Option NssState
      → Call (Answer GroupStruct) × Option NssState
  group_by_c_name to_str name base buflen bytes get_state = elim (to_str name) [
    | none ↦ (returns (refuse not_found bytes), get_state)
    | some name_str ↦ elim (lock get_state) [
      | none ↦ (returns (refuse unavail bytes), get_state)
      | some state ↦
          let (found, svc) = lookup_group_by_name engine murmur3_32 server name_str state.service in
          (group_answer base buflen bytes found, some (record state { service = svc }))
    ]
  ]

  unfoldable pub by_gid :
      (gid base buflen : ℕ) → List ℕ → Option NssState → Call (Answer GroupStruct) × Option NssState
  by_gid gid base buflen bytes get_state = elim (lock get_state) [
    | none ↦ (returns (refuse unavail bytes), get_state)
    | some state ↦
        let (found, svc) = lookup_group_by_gid engine murmur3_32 gid state.service in
        (group_answer base buflen bytes found, some (record state { service = svc }))
  ]

abbrev pub GroupEnum : Type 0
GroupEnum = Option (List Group × ℕ)

-- `groups.get(idx)` as the guard and the index of `getgrent_r` give it
abbrev pub group_at : List Group → ℕ → Option Group
group_at [] idx = none
group_at (grp ∷ groups) zero = some grp
group_at (grp ∷ groups) (suc idx) = group_at groups idx

unfoldable pub getgrent_r : (base buflen : ℕ) → List ℕ → GroupEnum → Answer GroupStruct × GroupEnum
unfolding is_success
getgrent_r base buflen bytes none = (refuse unavail bytes, none)
getgrent_r base buflen bytes (some (groups, idx)) = elim (group_at groups idx) [
  | none ↦ (refuse not_found bytes, some (groups, idx))
  | some grp ↦
      let filled = fill_group_buf grp base buflen bytes in
      (filled, some (groups, if is_success filled.status then idx + 1 else idx))
]

unfoldable pub endgrent : GroupEnum → NssStatus × GroupEnum
endgrent enum_state = (success, none)
