-- ===== src/Service/Invariant.antt =====
-- src/service.rs: what has to be shown of a property of the service for every method to keep it.
-- Only `store_user` and `store_group` write, and only what `scim_user_to_model` and
-- `scim_group_to_model` have made.
use sssd_oidc.Prelude.{ℕ, ◌≡◌, refl, sym, subst, List, [], ◌∷◌, Option, none, some}
use sssd_oidc.Text.{Str}
use sssd_oidc.Outcome.{Outcome, ok, err, panic, map_err}
use sssd_oidc.Exec.{Exec, pure, continue, ◌>>◌}
use sssd_oidc.Exec.Keeps.{Keeps, Keeps-bind, Keeps-pure, Keeps-reads, Keeps-continue}
use sssd_oidc.Model.{User, Group}
use sssd_oidc.Config.{OfflineAuthPolicy, cached_status, deny}
use sssd_oidc.Database.{Engine}
use sssd_oidc.Cache.State.{Cache, CacheError}
use sssd_oidc.Cache.Updates.{store_user, store_group}
use sssd_oidc.Scim.{ScimUser, ScimGroup, ScimGroupRef, ScimError}
use sssd_oidc.Service.{
  Service, ServiceError, ServiceM, cache_error, on_cache, read_cache, scim_user_to_model,
  scim_group_to_model, take_user, take_group, user_by_name, group_by_name, offline_active,
  user_active, resolve_gids, groups_for_user, take_users, take_groups,
}

abbrev pub with_user : Engine → User → Service → Service
with_user engine user svc = record svc { cache = (store_user engine user svc.cache).1 }

abbrev pub with_group : Engine → Group → Service → Service
with_group engine group svc = record svc { cache = (store_group engine group svc.cache).1 }

-- The two writes keep the property, also where they fail.
pub record IsInvariant (engine : Engine) (murmur3_32 : Str → ℕ → Option ℕ) (P : Service → Type 0)
    : Type 0 where
  pub stores_user :
      (scim_user : ScimUser) (svc : Service) (user : User)
      → (scim_user_to_model engine murmur3_32 scim_user svc).0 ≡ ok user
      → P svc
      → P (with_user engine user svc)
  pub stores_group :
      (scim_group : ScimGroup) (svc : Service) (group : Group)
      → (scim_group_to_model engine murmur3_32 scim_group svc).0 ≡ ok group
      → P svc
      → P (with_group engine group svc)

pub Keeps-read :
    {A : Type 0} (P : Service → Type 0) (f : Cache → Outcome CacheError A) → Keeps P (read_cache f)
unfolding read_cache
Keeps-read P f = record { at = λ svc h. h }

module _ (engine : Engine) (murmur3_32 : Str → ℕ → Option ℕ) where
  -- The conversions only read.
  pub Keeps-model :
      (P : Service → Type 0) (scim_user : ScimUser)
      → Keeps P (scim_user_to_model engine murmur3_32 scim_user)
  unfolding scim_user_to_model
  Keeps-model P scim_user = record {
    at = λ svc h.
        (Keeps-bind P (read_cache _) _ (Keeps-read P _)
            (λ uid. Keeps-bind P (read_cache _) _ (Keeps-read P _) (λ gid. Keeps-pure P _))).at
          svc h;
  }

  pub Keeps-group_model :
      (P : Service → Type 0) (scim_group : ScimGroup)
      → Keeps P (scim_group_to_model engine murmur3_32 scim_group)
  unfolding scim_group_to_model
  Keeps-group_model P scim_group = record {
    at = λ svc h. (Keeps-bind P (read_cache _) _ (Keeps-read P _) (λ gid. Keeps-pure P _)).at svc h;
  }

  pub model-same :
      (scim_user : ScimUser) (svc : Service)
      → (scim_user_to_model engine murmur3_32 scim_user svc).1 ≡ svc
  model-same scim_user svc = (Keeps-model (λ s. s ≡ svc) scim_user).at svc refl

  pub group_model-same :
      (scim_group : ScimGroup) (svc : Service)
      → (scim_group_to_model engine murmur3_32 scim_group svc).1 ≡ svc
  group_model-same scim_group svc = (Keeps-group_model (λ s. s ≡ svc) scim_group).at svc refl

-- The rest of `take_user` and `take_group`, after the conversion.
abbrev then_store : {A : Type 0} → (A → Exec Cache CacheError (Unit {0})) → A → ServiceM A
then_store store a = do on_cache (store a); pure a

Keeps-then_store :
    {A : Type 0} (P : Service → Type 0) (store : A → Exec Cache CacheError (Unit {0}))
    (r : Outcome ServiceError A) (svc : Service)
    → ((a : A) → r ≡ ok a → P (record svc { cache = (store a svc.cache).1 }))
    → P svc
    → P (continue r (then_store store) svc).1
unfolding on_cache
Keeps-then_store P store (ok a) svc kept h =
    Keeps-continue P (map_err cache_error (store a svc.cache).0) (λ _. pure a)
      (record svc { cache = (store a svc.cache).1 }) (λ _. Keeps-pure P a) (kept a refl)
Keeps-then_store P store (err x) svc kept h = h
Keeps-then_store P store panic svc kept h = h

module _ {engine : Engine} {murmur3_32 : Str → ℕ → Option ℕ} (P : Service → Type 0)
    (invariant : IsInvariant engine murmur3_32 P) where
  pub Keeps-take_user : (scim_user : ScimUser) → Keeps P (take_user engine murmur3_32 scim_user)
  unfolding take_user
  Keeps-take_user scim_user = record {
    at = λ svc h.
        let converted = (scim_user_to_model engine murmur3_32 scim_user svc).0 in
        subst (λ s. P (continue converted (then_store (store_user engine)) s).1)
          (sym (model-same engine murmur3_32 scim_user svc))
          (Keeps-then_store P (store_user engine) converted svc
            (λ user e. invariant.stores_user scim_user svc user e h) h);
  }

  pub Keeps-take_group :
      (scim_group : ScimGroup) → Keeps P (take_group engine murmur3_32 scim_group)
  unfolding take_group
  Keeps-take_group scim_group = record {
    at = λ svc h.
        let converted = (scim_group_to_model engine murmur3_32 scim_group svc).0 in
        subst (λ s. P (continue converted (then_store (store_group engine)) s).1)
          (sym (group_model-same engine murmur3_32 scim_group svc))
          (Keeps-then_store P (store_group engine) converted svc
            (λ group e. invariant.stores_group scim_group svc group e h) h);
  }

  pub Keeps-take_users : (users : List ScimUser) → Keeps P (take_users engine murmur3_32 users)
  unfolding take_users
  Keeps-take_users [] = Keeps-pure P []
  Keeps-take_users (su ∷ users) =
      Keeps-bind P (take_user engine murmur3_32 su) _ (Keeps-take_user su) (λ user.
        Keeps-bind P (take_users engine murmur3_32 users) _ (Keeps-take_users users)
          (λ _. Keeps-pure P _))

  pub Keeps-take_groups : (groups : List ScimGroup) → Keeps P (take_groups engine murmur3_32 groups)
  unfolding take_groups
  Keeps-take_groups [] = Keeps-pure P []
  Keeps-take_groups (sg ∷ groups) =
      Keeps-bind P (take_group engine murmur3_32 sg) _ (Keeps-take_group sg) (λ group.
        Keeps-bind P (take_groups engine murmur3_32 groups) _ (Keeps-take_groups groups)
          (λ _. Keeps-pure P _))

  pub Keeps-user_by_name :
      (name : Str) (answer : Outcome ScimError (Option ScimUser))
      → Keeps P (user_by_name engine murmur3_32 name answer)
  unfolding user_by_name
  Keeps-user_by_name name (ok (some su)) =
      Keeps-bind P (take_user engine murmur3_32 su) _ (Keeps-take_user su) (λ user. Keeps-pure P _)
  Keeps-user_by_name name (ok none) = Keeps-read P _
  Keeps-user_by_name name (err e) = Keeps-read P _
  Keeps-user_by_name name panic = Keeps-reads P _

  pub Keeps-group_by_name :
      (name : Str) (answer : Outcome ScimError (Option ScimGroup))
      → Keeps P (group_by_name engine murmur3_32 name answer)
  unfolding group_by_name
  Keeps-group_by_name name (ok (some sg)) =
      Keeps-bind P (take_group engine murmur3_32 sg) _ (Keeps-take_group sg)
        (λ group. Keeps-pure P _)
  Keeps-group_by_name name (ok none) = Keeps-read P _
  Keeps-group_by_name name (err e) = Keeps-read P _
  Keeps-group_by_name name panic = Keeps-reads P _

  Keeps-offline_active :
      (name : Str) (policy : OfflineAuthPolicy)
      → Keeps P (offline_active engine murmur3_32 name policy)
  unfolding offline_active
  Keeps-offline_active name cached_status =
      Keeps-bind P (read_cache _) _ (Keeps-read P _) (λ cached. Keeps-pure P _)
  Keeps-offline_active name deny = Keeps-pure P _

  pub Keeps-user_active :
      (name : Str) (answer : Outcome ScimError (Option ScimUser))
      → Keeps P (user_active engine murmur3_32 name answer)
  unfolding user_active
  Keeps-user_active name (ok (some su)) =
      Keeps-bind P (take_user engine murmur3_32 su) _ (Keeps-take_user su) (λ user. Keeps-pure P _)
  Keeps-user_active name (ok none) = Keeps-pure P _
  Keeps-user_active name (err e) = record {
    at = λ svc h. (Keeps-offline_active name svc.config.security.offline_auth_policy).at svc h;
  }
  Keeps-user_active name panic = Keeps-reads P _

  Keeps-resolve_gids :
      (groups : List ScimGroupRef) → Keeps P (resolve_gids engine murmur3_32 groups)
  unfolding resolve_gids
  Keeps-resolve_gids [] = Keeps-pure P []
  Keeps-resolve_gids (g ∷ groups) = record {
    at = λ svc h.
        (Keeps-bind P (read_cache _) _ (Keeps-read P _) (λ gid.
            Keeps-bind P (resolve_gids engine murmur3_32 groups) _ (Keeps-resolve_gids groups)
              (λ gids. Keeps-pure P _))).at
          svc h;
  }

  pub Keeps-groups_for_user :
      (name : Str) (answer : Outcome ScimError (Option ScimUser))
      → Keeps P (groups_for_user engine murmur3_32 name answer)
  unfolding groups_for_user
  Keeps-groups_for_user name (ok (some su)) =
      Keeps-bind P (take_user engine murmur3_32 su) _ (Keeps-take_user su)
        (λ user. Keeps-resolve_gids su.groups)
  Keeps-groups_for_user name (ok none) = Keeps-pure P []
  Keeps-groups_for_user name (err e) =
      Keeps-bind P (read_cache _) _ (Keeps-read P _) (λ cached. Keeps-pure P _)
  Keeps-groups_for_user name panic = Keeps-reads P _
