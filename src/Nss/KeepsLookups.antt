-- ===== src/Nss/KeepsLookups.antt =====
-- The lookups of crates/nss_oidc and a property that the writes of the service keep.
use sssd_oidc.Prelude.{
  ℕ, ◌≡◌, refl, subst, List, Option, none, some, ◌⊎◌, inl, inr, Bool-cases, Option-cases,
}
use sssd_oidc.Text.{Str}
use sssd_oidc.Database.{Engine}
use sssd_oidc.Scim.{Http}
use sssd_oidc.Service.{Service}
use sssd_oidc.Service.Invariant.{IsInvariant}
use sssd_oidc.Service.Methods.{
  Keeps-lookup_user_by_name, Keeps-lookup_user_by_uid, Keeps-lookup_group_by_gid,
  Keeps-lookup_group_by_name, Keeps-lookup_groups_for_user,
}
use sssd_oidc.Nss.{NssState}
use sssd_oidc.Nss.Enumeration.{lock, by_name, by_uid}
use sssd_oidc.Nss.GroupBuffer.{group_by_c_name, by_gid}
use sssd_oidc.Nss.InitGroups.{Groups, initgroups_dyn}

-- The property holds of the service, if there is one.
unfoldable pub Holds : (Service → Type 0) → Option NssState → Type 0
Holds P none = Unit
Holds P (some state) = P state.service

pub lock-cases :
    (s : Option NssState)
    → (lock s ≡ none) ⊎ ((state : NssState) × (s ≡ some state) × (lock s ≡ some state))
unfolding lock
lock-cases none = inl refl
lock-cases (some state) = elim (Bool-cases state.poisoned) [
  | inl e ↦ inl (rw (e, lock) refl)
  | inr e ↦ inr (state, refl, rw (e, lock) refl)
]

module _ {engine : Engine} {murmur3_32 : Str → ℕ → Option ℕ} (P : Service → Type 0)
    (invariant : IsInvariant engine murmur3_32 P) where
  abbrev Fine : Option NssState → Type 0
  Fine = Holds P

  pub by_uid-Holds :
      (uid buflen : ℕ) (bytes : List ℕ) (server : Http) (s : Option NssState)
      → Fine s
      → Fine (by_uid engine murmur3_32 server uid buflen bytes s).1
  unfolding by_uid Holds
  by_uid-Holds uid buflen bytes server s h = elim (lock-cases s) [
    | inl e ↦ rw (e, by_uid) h
    | inr (state, same, e) ↦
        let held : Fine (some state) = subst Fine same h in
        rw (e, by_uid) ((Keeps-lookup_user_by_uid P invariant uid).at state.service held)
  ]

  pub by_name-Holds :
      (server : Http) (to_str : Str → Option Str) (name : Str) (buflen : ℕ) (bytes : List ℕ)
      (s : Option NssState)
      → Fine s
      → Fine (by_name engine murmur3_32 server to_str name buflen bytes s).1
  unfolding by_name Holds
  by_name-Holds server to_str name buflen bytes s h = elim (Option-cases (to_str name)) [
    | inl e ↦ rw (e, by_name) h
    | inr (name_str, e) ↦ elim (lock-cases s) [
      | inl f ↦ rw (e, f, by_name) h
      | inr (state, same, f) ↦
          let held : Fine (some state) = subst Fine same h in
          rw (e, f, by_name)
            ((Keeps-lookup_user_by_name P invariant server name_str).at state.service held)
    ]
  ]

  pub by_gid-Holds :
      (gid base buflen : ℕ) (bytes : List ℕ) (server : Http) (s : Option NssState)
      → Fine s
      → Fine (by_gid engine murmur3_32 server gid base buflen bytes s).1
  unfolding by_gid Holds
  by_gid-Holds gid base buflen bytes server s h = elim (lock-cases s) [
    | inl e ↦ rw (e, by_gid) h
    | inr (state, same, e) ↦
        let held : Fine (some state) = subst Fine same h in
        rw (e, by_gid) ((Keeps-lookup_group_by_gid P invariant gid).at state.service held)
  ]

  pub group_by_c_name-Holds :
      (server : Http) (to_str : Str → Option Str) (name : Str) (base buflen : ℕ) (bytes : List ℕ)
      (s : Option NssState)
      → Fine s
      → Fine (group_by_c_name engine murmur3_32 server to_str name base buflen bytes s).1
  unfolding group_by_c_name Holds
  group_by_c_name-Holds server to_str name base buflen bytes s h =
      elim (Option-cases (to_str name)) [
        | inl e ↦ rw (e, group_by_c_name) h
        | inr (name_str, e) ↦ elim (lock-cases s) [
          | inl f ↦ rw (e, f, group_by_c_name) h
          | inr (state, same, f) ↦
              let held : Fine (some state) = subst Fine same h in
              rw (e, f, group_by_c_name)
                ((Keeps-lookup_group_by_name P invariant server name_str).at state.service held)
        ]
      ]

  pub initgroups_dyn-Holds :
      (server : Http) (to_str : Str → Option Str) (user : Str) (group cur_size : ℕ)
      (filled : Groups) (s : Option NssState)
      → Fine s
      → Fine (initgroups_dyn engine murmur3_32 server to_str user group cur_size filled s).1
  unfolding initgroups_dyn Holds
  initgroups_dyn-Holds server to_str user group cur_size filled none h =
      elim (Option-cases (to_str user)) [
        | inl e ↦ rw (e, initgroups_dyn) tt
        | inr (user_str, e) ↦ rw (e, initgroups_dyn) tt
      ]
  initgroups_dyn-Holds server to_str user group cur_size filled (some state) h =
      elim (Option-cases (to_str user)) [
        | inl e ↦ rw (e, initgroups_dyn) h
        | inr (user_str, e) ↦ elim (Bool-cases state.poisoned) [
          | inl f ↦ rw (e, f, initgroups_dyn) h
          | inr f ↦
              rw (e, f, initgroups_dyn)
                ((Keeps-lookup_groups_for_user P invariant server user_str).at state.service h)
        ]
      ]
