-- ===== src/Nss/ListingUids.antt =====
-- `setpwent` of crates/nss_oidc and the UIDs of the users that it lists. It goes on where a write to
-- the cache fails, but only a stored row keeps a UID from the next user.
use sssd_oidc.Prelude.{
  ℕ, ◌≡◌, ◌↔◌, refl, ap, subst, ◌∙◌, List, [], ◌∷◌, Option, Bool, none, some, inl, inr, All,
  All-map,
}
use mathlib.Core.Option.{some-injective}
use sssd_oidc.Text.{Str}
use sssd_oidc.Outcome.{ok}
use sssd_oidc.Model.{User}
use sssd_oidc.Config.{MappingConfig}
use sssd_oidc.Mapping.Range.{IsRange}
use sssd_oidc.Database.Rows.{IsUnique}
use sssd_oidc.Database.{clash_users, Db, Engine, replace_user, run_replace_user}
use sssd_oidc.Cache.Placement.{IsPlaced}
use sssd_oidc.Cache.Executes.{execute_done}
use sssd_oidc.Cache.Updates.{run, store_user}
use sssd_oidc.Cache.Holder.{told}
use sssd_oidc.Scim.{Http, ScimUser, list_users, get_user_by_name}
use sssd_oidc.Service.{Service, lookup_user_by_name, scim_user_to_model}
use sssd_oidc.Service.SameUid.{IsAt-iff, found_iff}
use sssd_oidc.Nss.Reachable.{Reachable, Reachable-Holds}
use sssd_oidc.Service.Invariant.{with_user, model-same}
use sssd_oidc.Service.Placement.{
  IsSettled, IsAt, stored_own, IsSettled-IsInvariant, IsAt-IsInvariant,
}
use sssd_oidc.Nss.{NssState, success, returns}
use sssd_oidc.Nss.Enumeration.{UserEnum, keep_user, keep_users, set_users, setpwent}
use sssd_oidc.Nss.KeepsLookups.{Holds, lock-cases}
use sssd_oidc.Nss.KeepsEnumeration.{Call-cases, returns_inj, Outcome-cases, keep_users-Holds}

-- No write of a user fails.
abbrev pub UserWrites : Engine → Type 0
UserWrites engine = (user : User) (db : Db) → engine.fault (replace_user user) db ≡ none

module _ (murmur3_32 : Str → ℕ → Option ℕ) (mapping : MappingConfig)
    (range : IsRange mapping.uid_range_min mapping.uid_range_size) (engine : Engine)
    (writes : UserWrites engine) (server : Http) where
  abbrev At : Service → User → Type 0
  At svc user = IsAt murmur3_32 mapping user.external_id user.uid svc

  stored-At :
      (scim_user : ScimUser) (svc : Service) (user : User)
      → (scim_user_to_model engine murmur3_32 scim_user svc).0 ≡ ok user
      → IsSettled murmur3_32 mapping svc
      → At (with_user engine user svc) user
  unfolding store_user run
  stored-At scim_user svc user made settled =
      let now = engine.clock (replace_user user) svc.cache.conn in
      let done =
        execute_done engine (replace_user user) svc.cache
          {db = run_replace_user now user svc.cache.conn} (writes user svc.cache.conn) refl in
      record {
        settled =
            (IsSettled-IsInvariant murmur3_32 mapping range engine).stores_user scim_user svc user
              made settled;
        owner =
            ap (λ r. told r.1.conn user.external_id user.uid) done
            ∙ stored_own murmur3_32 mapping range engine scim_user svc user made settled now;
      }

  keep_users-At :
      (scim_users : List ScimUser) (svc svc' : Service) (users : List User)
      → keep_users engine murmur3_32 server scim_users svc ≡ returns (users, svc')
      → IsSettled murmur3_32 mapping svc
      → All (At svc') users
  unfolding keep_users keep_user
  keep_users-At [] svc svc' users e settled =
      subst (All (At svc')) (ap (λ r. r.0) (returns_inj _ _ e)) tt
  keep_users-At (su ∷ scim_users) svc svc' users e settled =
      let same = model-same engine murmur3_32 su svc in
      let from =
        subst
          (λ s.
            keep_user engine murmur3_32 server (scim_user_to_model engine murmur3_32 su svc).0 s
              (keep_users engine murmur3_32 server scim_users)
            ≡ returns (users, svc'))
          same e in
      elim (Outcome-cases (scim_user_to_model engine murmur3_32 su svc).0) [
        | inl (user, f) ↦
            let stored = with_user engine user svc in
            let here = stored-At su svc user f settled in
            elim (Call-cases (keep_users engine murmur3_32 server scim_users stored)) [
              | inl g ↦ cc (rw (f, g, keep_user) at from)
              | inr ((others, last), g) ↦
                  let r = returns_inj _ _ (rw (f, g, keep_user) at from) in
                  let there =
                    keep_users-Holds (IsAt murmur3_32 mapping user.external_id user.uid)
                      (IsAt-IsInvariant murmur3_32 mapping range engine user.external_id user.uid)
                      server scim_users stored last others g here in
                  subst (λ (p : List User × Service). All (At p.1) p.0) r
                    (there, keep_users-At scim_users stored last others g here.settled)
            ]
        | inr (inl (x, f)) ↦
            keep_users-At scim_users svc svc' users (rw (f, keep_user) at from) settled
        | inr (inr f) ↦ cc (rw (f, keep_user) at from)
      ]

  set_users-At :
      (scim_users : List ScimUser) (enum_state : UserEnum) (users : List User) (idx : ℕ)
      (state state' : NssState)
      → set_users engine murmur3_32 server scim_users enum_state (some state)
        ≡ returns (success, some (users, idx), some state')
      → IsSettled murmur3_32 mapping state.service
      → All (At state'.service) users
  unfolding set_users
  set_users-At scim_users enum_state users idx state state' e settled =
      elim (lock-cases (some state)) [
        | inl f ↦ cc (ap (λ r. r.0) (returns_inj _ _ (rw (f, set_users) at e)))
        | inr (st, same, f) ↦
            elim (Call-cases (keep_users engine murmur3_32 server scim_users st.service)) [
              | inl g ↦ cc (rw (f, g, set_users) at e)
              | inr ((listed, svc), g) ↦
                  let r = returns_inj _ _ (rw (f, g, set_users) at e) in
                  let same_users : listed ≡ users =
                    ap (λ p. p.0) (some-injective _ _ (ap (λ p. p.1) r)) in
                  let same_svc : svc ≡ state'.service =
                    ap (λ (s : NssState). s.service) (some-injective _ _ (ap (λ p. p.2) r)) in
                  let from : IsSettled murmur3_32 mapping st.service =
                    subst (λ (s : NssState). IsSettled murmur3_32 mapping s.service)
                      (some-injective _ _ same) settled in
                  rw (← same_users) (
                    subst (λ s. All (At s) listed) same_svc
                      (keep_users-At scim_users st.service svc listed g from))
            ]
      ]

  pub setpwent-At :
      (enum_state : UserEnum) (users : List User) (idx : ℕ) (state state' : NssState)
      → setpwent engine murmur3_32 server enum_state (some state)
        ≡ returns (success, some (users, idx), some state')
      → IsSettled murmur3_32 mapping state.service
      → All (At state'.service) users
  unfolding setpwent
  setpwent-At enum_state users idx state state' e settled =
      elim (Outcome-cases (list_users server state.scim)) [
        | inl (scim_users, f) ↦
            set_users-At scim_users enum_state users idx state state' (rw (f, setpwent) at e)
              settled
        | inr (inl (x, f)) ↦ cc (ap (λ r. r.0) (returns_inj _ _ (rw (f, setpwent) at e)))
        | inr (inr f) ↦ cc (rw (f, setpwent) at e)
      ]

module _ (murmur3_32 : Str → ℕ → Option ℕ) (engine : Engine) (server : Http) (enum_state : UserEnum)
    (users : List User) (idx : ℕ) (state state' : NssState)
    (range : IsRange state.service.config.mapping.uid_range_min
      state.service.config.mapping.uid_range_size)
    (writes : UserWrites engine) (unique : IsUnique clash_users state.service.cache.conn.uid_cache)
    (placed : IsPlaced murmur3_32 state.service.config.mapping.uid_range_min
      state.service.config.mapping.uid_range_size state.service.cache.conn)
    (listed : setpwent engine murmur3_32 server enum_state (some state)
      ≡ returns (success, some (users, idx), some state')) where
  abbrev mapping : MappingConfig
  mapping = state.service.config.mapping

  users-IsAt : All (λ u. IsAt murmur3_32 mapping u.external_id u.uid state'.service) users
  users-IsAt =
      setpwent-At murmur3_32 mapping range engine writes server enum_state users idx state state'
        listed (record { configured = refl; unique = unique; placed = placed })

  -- If the configured range of UIDs fits u32 and has at most 2^31 ids, the stored UIDs and external
  -- ids are unique, each stored user lies at the first slot of its external id that no other stored
  -- external id holds, and no write of a user fails: two users that a `setpwent` that succeeds has
  -- listed have the same UID exactly if they have the same external id.
  pub setpwent_same_uid :
      All (λ u. All (λ v. (u.external_id ≡ v.external_id) ↔ (u.uid ≡ v.uid)) users) users
  setpwent_same_uid =
      All-map _ _ users
        (λ u at_u.
          All-map _ _ users
            (λ v at_v.
              IsAt-iff murmur3_32 mapping u.external_id v.external_id u.uid v.uid state'.service
                at_u at_v)
            users-IsAt)
        users-IsAt

  -- If the configured range of UIDs fits u32 and has at most 2^31 ids, the stored UIDs and external
  -- ids are unique, each stored user lies at the first slot of its external id that no other stored
  -- external id holds, and no write of a user fails in a `setpwent` that succeeds: a later lookup by
  -- name that SCIM has answered with a user and that has returned one, with any calls of the NSS
  -- module between them, whatever SCIM answers and whatever fails in those, returns the UID of a
  -- listed user exactly if SCIM has answered with that user's external id.
  pub setpwent-lookup_user_by_name :
      (to_str : Str → Option Str) (foreign_keys : Bool) (reader : Engine) (server' : Http)
      (name : Str) (later : NssState) (svc : Service) (scim_user : ScimUser) (found : User)
      → Reachable murmur3_32 to_str foreign_keys (some state') (some later)
      → get_user_by_name server' later.service.scim name ≡ ok (some scim_user)
      → lookup_user_by_name reader murmur3_32 server' name later.service ≡ (ok (some found), svc)
      → All (λ u. (scim_user.id ≡ u.external_id) ↔ (found.uid ≡ u.uid)) users
  unfolding Holds
  setpwent-lookup_user_by_name to_str foreign_keys reader server' name later svc scim_user found
        reached online returned =
      All-map _ _ users
        (λ u at_u.
          found_iff murmur3_32 mapping range reader server' name later.service svc scim_user found
            online returned u.external_id u.uid
            (Reachable-Holds murmur3_32 to_str (IsAt murmur3_32 mapping u.external_id u.uid)
              foreign_keys (λ e _. IsAt-IsInvariant murmur3_32 mapping range e u.external_id u.uid)
              (some state') (some later) reached at_u))
        users-IsAt
