-- ===== src/Service/Methods.antt =====
-- src/service.rs: the methods of the service and a property that its two writes keep.
use sssd_oidc.Prelude.{ℕ, Option, length, ltb, Bool-cases, inl, inr}
use sssd_oidc.Text.{Str}
use sssd_oidc.Outcome.{map_err}
use sssd_oidc.Exec.{reads}
use sssd_oidc.Exec.Keeps.{Keeps, Keeps-bind, Keeps-reads}
use sssd_oidc.Database.{Engine}
use sssd_oidc.Scim.{Http}
use sssd_oidc.Scim
use sssd_oidc.Service.{
  Service, scim_error, max_name_len, lookup_user_by_uid, lookup_group_by_gid, lookup_user_by_name,
  lookup_group_by_name, check_user_active, lookup_groups_for_user, list_all_users, list_all_groups,
}
use sssd_oidc.Service.Invariant.{
  IsInvariant, Keeps-read, Keeps-user_by_name, Keeps-group_by_name, Keeps-user_active,
  Keeps-groups_for_user, Keeps-take_users, Keeps-take_groups,
}

module _ {engine : Engine} {murmur3_32 : Str → ℕ → Option ℕ} (P : Service → Type 0)
    (invariant : IsInvariant engine murmur3_32 P) where
  pub Keeps-lookup_user_by_uid : (uid : ℕ) → Keeps P (lookup_user_by_uid engine murmur3_32 uid)
  unfolding lookup_user_by_uid
  Keeps-lookup_user_by_uid uid = Keeps-read P _

  pub Keeps-lookup_group_by_gid : (gid : ℕ) → Keeps P (lookup_group_by_gid engine murmur3_32 gid)
  unfolding lookup_group_by_gid
  Keeps-lookup_group_by_gid gid = Keeps-read P _

  module _ (server : Http) where
    pub Keeps-lookup_user_by_name :
        (name : Str) → Keeps P (lookup_user_by_name engine murmur3_32 server name)
    unfolding lookup_user_by_name
    Keeps-lookup_user_by_name name = record {
      at = λ svc h. elim (Bool-cases (ltb max_name_len (length name))) [
        | inl e ↦ rw (e, lookup_user_by_name) h
        | inr e ↦
            rw (e, lookup_user_by_name)
              ((Keeps-user_by_name P invariant name (Scim.get_user_by_name server svc.scim name)).at
                svc h)
      ];
    }

    pub Keeps-lookup_group_by_name :
        (name : Str) → Keeps P (lookup_group_by_name engine murmur3_32 server name)
    unfolding lookup_group_by_name
    Keeps-lookup_group_by_name name = record {
      at = λ svc h. elim (Bool-cases (ltb max_name_len (length name))) [
        | inl e ↦ rw (e, lookup_group_by_name) h
        | inr e ↦
            rw (e, lookup_group_by_name)
              ((Keeps-group_by_name P invariant name
                  (Scim.get_group_by_name server svc.scim name)).at
                svc h)
      ];
    }

    pub Keeps-check_user_active :
        (name : Str) → Keeps P (check_user_active engine murmur3_32 server name)
    unfolding check_user_active
    Keeps-check_user_active name = record {
      at = λ svc h. elim (Bool-cases (ltb max_name_len (length name))) [
        | inl e ↦ rw (e, check_user_active) h
        | inr e ↦
            rw (e, check_user_active)
              ((Keeps-user_active P invariant name (Scim.get_user_by_name server svc.scim name)).at
                svc h)
      ];
    }

    pub Keeps-lookup_groups_for_user :
        (name : Str) → Keeps P (lookup_groups_for_user engine murmur3_32 server name)
    unfolding lookup_groups_for_user
    Keeps-lookup_groups_for_user name = record {
      at = λ svc h. elim (Bool-cases (ltb max_name_len (length name))) [
        | inl e ↦ rw (e, lookup_groups_for_user) h
        | inr e ↦
            rw (e, lookup_groups_for_user)
              ((Keeps-groups_for_user P invariant name
                  (Scim.get_user_by_name server svc.scim name)).at
                svc h)
      ];
    }

    pub Keeps-list_all_users : Keeps P (list_all_users engine murmur3_32 server)
    unfolding list_all_users
    Keeps-list_all_users =
        Keeps-bind P (reads (λ (x : Service). map_err scim_error (Scim.list_users server x.scim))) _
          (Keeps-reads P _) (λ users. Keeps-take_users P invariant users)

    pub Keeps-list_all_groups : Keeps P (list_all_groups engine murmur3_32 server)
    unfolding list_all_groups
    Keeps-list_all_groups =
        Keeps-bind P (reads (λ (x : Service). map_err scim_error (Scim.list_groups server x.scim)))
          _ (Keeps-reads P _) (λ groups. Keeps-take_groups P invariant groups)
