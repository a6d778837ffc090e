-- ===== src/Nss/GroupListingGids.antt =====
-- `setgrent` of crates/nss_oidc and the GIDs of the groups that it lists. It goes on where a write to
-- the cache fails, but only a stored row keeps a GID from the next group.
use mathlib.Core.Option.{some-injective}
use sssd_oidc.Prelude.{
  ℕ, ◌≡◌, ◌↔◌, refl, ap, subst, List, [], ◌∷◌, Option, Bool, none, some, inl, inr, All, All-map,
}
use sssd_oidc.Text.{Str}
use sssd_oidc.Outcome.{ok}
use sssd_oidc.Model.{Group}
use sssd_oidc.Config.{MappingConfig}
use sssd_oidc.Mapping.Range.{IsRange}
use sssd_oidc.Database.Rows.{IsUnique, IsUnique-upsert}
use sssd_oidc.Database.Unique.{clash_groups_symm}
use sssd_oidc.Database.{clash_groups, Db, Engine, replace_group}
use sssd_oidc.Cache.Slots.{AreAtSlots}
use sssd_oidc.Cache.StoreGroup.{row_of_group}
use sssd_oidc.Cache.GroupTable.{store_group-written}
use sssd_oidc.Scim.{Http, ScimGroup, list_groups, get_group_by_name}
use sssd_oidc.Service.{Service, lookup_group_by_name, scim_group_to_model}
use sssd_oidc.Service.Invariant.{with_group, group_model-same}
use sssd_oidc.Service.GroupSlots.{
  id_of, gid_of, IsGroupsSettled, IsGroupAt, written-AreAtSlots, written_own,
}
use sssd_oidc.Service.SameGid.{TableAt, at_of, IsGroupAt-iff, IsGroupAt-IsInvariant}
use sssd_oidc.Service.GroupOnline.{found_group_iff}
use sssd_oidc.Nss.{NssState, success, returns}
use sssd_oidc.Nss.GroupBuffer.{GroupEnum}
use sssd_oidc.Nss.GroupEnumeration.{keep_group, keep_groups, set_groups, setgrent}
use sssd_oidc.Nss.Reachable.{Reachable, Reachable-Holds}
use sssd_oidc.Nss.KeepsLookups.{Holds, lock-cases}
use sssd_oidc.Nss.KeepsEnumeration.{Call-cases, returns_inj, Outcome-cases, keep_groups-Holds}

-- No write of the row of a group fails.
abbrev pub GroupWrites : Engine → Type 0
GroupWrites engine =
    (group : Group) (db : Db)
    → engine.fault (replace_group group.external_id group.name group.gid) db ≡ none

module _ (murmur3_32 : Str → ℕ → Option ℕ) (mapping : MappingConfig)
    (range : IsRange mapping.gid_range_min mapping.gid_range_size) (engine : Engine)
    (writes : GroupWrites engine) (server : Http) where
  abbrev At : Service → Group → Type 0
  At svc group = IsGroupAt murmur3_32 mapping group.external_id group.gid svc

  stored-At :
      (scim_group : ScimGroup) (svc : Service) (group : Group)
      → (scim_group_to_model engine murmur3_32 scim_group svc).0 ≡ ok group
      → IsGroupsSettled murmur3_32 mapping svc
      → At (with_group engine group svc) group
  stored-At scim_group svc group made settled =
      at_of murmur3_32 mapping group.external_id group.gid (with_group engine group svc)
        settled.configured
        (store_group-written engine (TableAt murmur3_32 mapping group.external_id group.gid) group
          svc.cache (writes group svc.cache.conn)
          (λ now. record {
            unique =
                IsUnique-upsert clash_groups clash_groups_symm (row_of_group now group)
                  svc.cache.conn.gid_cache settled.unique;
            placed =
                written-AreAtSlots murmur3_32 mapping range engine scim_group svc group made settled
                  now;
            owner =
                written_own murmur3_32 mapping range engine scim_group svc group made settled now;
          }))

  keep_groups-At :
      (scim_groups : List ScimGroup) (svc svc' : Service) (groups : List Group)
      → keep_groups engine murmur3_32 server scim_groups svc ≡ returns (groups, svc')
      → IsGroupsSettled murmur3_32 mapping svc
      → All (At svc') groups
  unfolding keep_groups keep_group
  keep_groups-At [] svc svc' groups e settled =
      subst (All (At svc')) (ap (λ r. r.0) (returns_inj _ _ e)) tt
  keep_groups-At (sg ∷ scim_groups) svc svc' groups e settled =
      let same = group_model-same engine murmur3_32 sg svc in
      let from =
        subst
          (λ s.
            keep_group engine murmur3_32 server (scim_group_to_model engine murmur3_32 sg svc).0 s
              (keep_groups engine murmur3_32 server scim_groups)
            ≡ returns (groups, svc'))
          same e in
      elim (Outcome-cases (scim_group_to_model engine murmur3_32 sg svc).0) [
        | inl (group, f) ↦
            let stored = with_group engine group svc in
            let here = stored-At sg svc group f settled in
            elim (Call-cases (keep_groups engine murmur3_32 server scim_groups stored)) [
              | inl g ↦ cc (rw (f, g, keep_group) at from)
              | inr ((others, last), g) ↦
                  let r = returns_inj _ _ (rw (f, g, keep_group) at from) in
                  let there =
                    keep_groups-Holds (IsGroupAt murmur3_32 mapping group.external_id group.gid)
                      (IsGroupAt-IsInvariant murmur3_32 mapping range engine group.external_id
                        group.gid)
                      server scim_groups stored last others g here in
                  subst (λ (p : List Group × Service). All (At p.1) p.0) r
                    (there, keep_groups-At scim_groups stored last others g here.settled)
            ]
        | inr (inl (x, f)) ↦
            keep_groups-At scim_groups svc svc' groups (rw (f, keep_group) at from) settled
        | inr (inr f) ↦ cc (rw (f, keep_group) at from)
      ]

  set_groups-At :
      (scim_groups : List ScimGroup) (enum_state : GroupEnum) (groups : List Group) (idx : ℕ)
      (state state' : NssState)
      → set_groups engine murmur3_32 server scim_groups enum_state (some state)
        ≡ returns (success, some (groups, idx), some state')
      → IsGroupsSettled murmur3_32 mapping state.service
      → All (At state'.service) groups
  unfolding set_groups
  set_groups-At scim_groups enum_state groups idx state state' e settled =
      elim (lock-cases (some state)) [
        | inl f ↦ cc (ap (λ r. r.0) (returns_inj _ _ (rw (f, set_groups) at e)))
        | inr (st, same, f) ↦
            elim (Call-cases (keep_groups engine murmur3_32 server scim_groups st.service)) [
              | inl g ↦ cc (rw (f, g, set_groups) at e)
              | inr ((listed, svc), g) ↦
                  let r = returns_inj _ _ (rw (f, g, set_groups) at e) in
                  let same_groups : listed ≡ groups =
                    ap (λ p. p.0) (some-injective _ _ (ap (λ p. p.1) r)) in
                  let same_svc : svc ≡ state'.service =
                    ap (λ (s : NssState). s.service) (some-injective _ _ (ap (λ p. p.2) r)) in
                  let from : IsGroupsSettled murmur3_32 mapping st.service =
                    subst (λ (s : NssState). IsGroupsSettled murmur3_32 mapping s.service)
                      (some-injective _ _ same) settled in
                  rw (← same_groups) (
                    subst (λ s. All (At s) listed) same_svc
                      (keep_groups-At scim_groups st.service svc listed g from))
            ]
      ]

  pub setgrent-At :
      (enum_state : GroupEnum) (groups : List Group) (idx : ℕ) (state state' : NssState)
      → setgrent engine murmur3_32 server enum_state (some state)
        ≡ returns (success, some (groups, idx), some state')
      → IsGroupsSettled murmur3_32 mapping state.service
      → All (At state'.service) groups
  unfolding setgrent
  setgrent-At enum_state groups idx state state' e settled =
      elim (Outcome-cases (list_groups server state.scim)) [
        | inl (scim_groups, f) ↦
            set_groups-At scim_groups enum_state groups idx state state' (rw (f, setgrent) at e)
              settled
        | inr (inl (x, f)) ↦ cc (ap (λ r. r.0) (returns_inj _ _ (rw (f, setgrent) at e)))
        | inr (inr f) ↦ cc (rw (f, setgrent) at e)
      ]

module _ (murmur3_32 : Str → ℕ → Option ℕ) (engine : Engine) (server : Http)
    (enum_state : GroupEnum) (groups : List Group) (idx : ℕ) (state state' : NssState)
    (range : IsRange state.service.config.mapping.gid_range_min
      state.service.config.mapping.gid_range_size)
    (writes : GroupWrites engine)
    (unique : IsUnique clash_groups state.service.cache.conn.gid_cache)
    (placed : AreAtSlots id_of gid_of murmur3_32 state.service.config.mapping.gid_range_min
      state.service.config.mapping.gid_range_size state.service.cache.conn.gid_cache)
    (listed : setgrent engine murmur3_32 server enum_state (some state)
      ≡ returns (success, some (groups, idx), some state')) where
  abbrev mapping : MappingConfig
  mapping = state.service.config.mapping

  groups-IsGroupAt :
      All (λ g. IsGroupAt murmur3_32 mapping g.external_id g.gid state'.service) groups
  groups-IsGroupAt =
      setgrent-At murmur3_32 mapping range engine writes server enum_state groups idx state state'
        listed (record { configured = refl; unique = unique; placed = placed })

  -- If the configured range of GIDs fits u32 and has at most 2^31 ids, the GIDs and external ids of the
  -- stored groups are unique, each stored group lies at the first slot of its external id that no other
  -- stored group holds, and no write of the row of a group fails, whatever fails in the writes of its
  -- members: two groups that a `setgrent` that succeeds has listed have the same GID exactly if they
  -- have the same external id.
  pub setgrent_same_gid :
      All (λ g. All (λ k. (g.external_id ≡ k.external_id) ↔ (g.gid ≡ k.gid)) groups) groups
  setgrent_same_gid =
      All-map _ _ groups
        (λ g at_g.
          All-map _ _ groups
            (λ k at_k.
              IsGroupAt-iff murmur3_32 mapping g.external_id k.external_id g.gid k.gid
                state'.service at_g at_k)
            groups-IsGroupAt)
        groups-IsGroupAt

  -- If the configured range of GIDs fits u32 and has at most 2^31 ids, the GIDs and external ids of the
  -- stored groups are unique, each stored group lies at the first slot of its external id that no other
  -- stored group holds, and no write of the row of a group fails in a `setgrent` that succeeds, whatever
  -- fails in the writes of members: a later lookup by name that SCIM has answered with a group and that
  -- has returned one, with any calls of the NSS module between them, whatever SCIM answers and whatever
  -- fails in those, returns the GID of a listed group exactly if SCIM has answered with that group's
  -- external id.
  pub setgrent-lookup_group_by_name :
      (to_str : Str → Option Str) (foreign_keys : Bool) (reader : Engine) (server' : Http)
      (name : Str) (later : NssState) (svc : Service) (scim_group : ScimGroup) (found : Group)
      → Reachable murmur3_32 to_str foreign_keys (some state') (some later)
      → get_group_by_name server' later.service.scim name ≡ ok (some scim_group)
      → lookup_group_by_name reader murmur3_32 server' name later.service ≡ (ok (some found), svc)
      → All (λ g. (scim_group.id ≡ g.external_id) ↔ (found.gid ≡ g.gid)) groups
  unfolding Holds
  setgrent-lookup_group_by_name to_str foreign_keys reader server' name later svc scim_group found
        reached online returned =
      All-map _ _ groups
        (λ g at_g.
          found_group_iff murmur3_32 mapping range reader server' name later.service svc scim_group
            found online returned g.external_id g.gid
            (Reachable-Holds murmur3_32 to_str (IsGroupAt murmur3_32 mapping g.external_id g.gid)
              foreign_keys
              (λ e _. IsGroupAt-IsInvariant murmur3_32 mapping range e g.external_id g.gid)
              (some state') (some later) reached at_g))
        groups-IsGroupAt
