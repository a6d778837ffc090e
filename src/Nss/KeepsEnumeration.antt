-- ===== src/Nss/KeepsEnumeration.antt =====
-- The enumerations of crates/nss_oidc and a property that the writes of the service keep.
use sssd_oidc.Prelude.{ℕ, ◌≡◌, refl, ap, subst, List, [], ◌∷◌, Option, none, some, ◌⊎◌, inl, inr}
use sssd_oidc.Text.{Str}
use sssd_oidc.Outcome.{Outcome, ok, err, panic}
use sssd_oidc.Model.{User, Group}
use sssd_oidc.Database.{Engine}
use sssd_oidc.Scim.{Http, ScimUser, ScimGroup, list_users, list_groups}
use sssd_oidc.Service.{Service, ServiceError, scim_user_to_model, scim_group_to_model}
use sssd_oidc.Service.Invariant.{IsInvariant, with_user, with_group, model-same, group_model-same}
use sssd_oidc.Nss.{NssState, NssStatus, Call, returns, aborts}
use sssd_oidc.Nss.Enumeration.{UserEnum, keep_user, keep_users, set_users, setpwent}
use sssd_oidc.Nss.GroupBuffer.{GroupEnum}
use sssd_oidc.Nss.GroupEnumeration.{keep_group, keep_groups, set_groups, setgrent}
use sssd_oidc.Nss.KeepsLookups.{Holds, lock-cases}

pub Call-cases : {A : Type 0} (c : Call A) → (c ≡ aborts) ⊎ ((a : A) × (c ≡ returns a))
Call-cases (returns a) = inr (a, refl)
Call-cases aborts = inl refl

pub returns_inj : {A : Type 0} (a b : A) → ◌≡◌ {A = Call A} (returns a) (returns b) → a ≡ b
returns_inj a b h = cc

pub Outcome-cases :
    {E A : Type 0} (r : Outcome E A)
    → ((a : A) × (r ≡ ok a)) ⊎ (((e : E) × (r ≡ err e)) ⊎ (r ≡ panic))
Outcome-cases (ok a) = inl (a, refl)
Outcome-cases (err e) = inr (inl (e, refl))
Outcome-cases panic = inr (inr refl)

module _ {engine : Engine} {murmur3_32 : Str → ℕ → Option ℕ} (P : Service → Type 0)
    (invariant : IsInvariant engine murmur3_32 P) where
  abbrev Fine : Option NssState → Type 0
  Fine = Holds P

  module _ (server : Http) where
    -- One round of `setpwent`, and its loop.
    keep_user-Holds :
        (scim_user : ScimUser) (r : Outcome ServiceError User) (svc svc' : Service)
        (rest : Service → Call (List User × Service)) (users : List User)
        → (scim_user_to_model engine murmur3_32 scim_user svc).0 ≡ r
        → ((s s' : Service) (us : List User) → rest s ≡ returns (us, s') → P s → P s')
        → keep_user engine murmur3_32 server r svc rest ≡ returns (users, svc')
        → P svc
        → P svc'
    unfolding keep_user
    keep_user-Holds su (ok user) svc svc' rest users made keeps e h =
        let stored : Service = with_user engine user svc in
        elim (Call-cases (rest stored)) [
          | inl f ↦ cc (rw (f, keep_user) at e)
          | inr ((us, s'), f) ↦
              let same : s' ≡ svc' = ap (λ r. r.1) (returns_inj _ _ (rw (f, keep_user) at e)) in
              subst P same (keeps stored s' us f (invariant.stores_user su svc user made h))
        ]
    keep_user-Holds su (err x) svc svc' rest users made keeps e h = keeps svc svc' users e h
    keep_user-Holds su panic svc svc' rest users made keeps e h = cc

    pub keep_users-Holds :
        (scim_users : List ScimUser) (svc svc' : Service) (users : List User)
        → keep_users engine murmur3_32 server scim_users svc ≡ returns (users, svc')
        → P svc
        → P svc'
    unfolding keep_users
    keep_users-Holds [] svc svc' users e h = subst P (ap (λ r. r.1) (returns_inj _ _ e)) h
    keep_users-Holds (su ∷ scim_users) svc svc' users e h =
        let same = model-same engine murmur3_32 su svc in
        keep_user-Holds su _ svc svc' (keep_users engine murmur3_32 server scim_users) users refl
          (λ s s' us. keep_users-Holds scim_users s s' us)
          (subst
            (λ s.
              keep_user engine murmur3_32 server (scim_user_to_model engine murmur3_32 su svc).0 s
                (keep_users engine murmur3_32 server scim_users)
              ≡ returns (users, svc'))
            same e)
          h

    set_users-Holds :
        (scim_users : List ScimUser) (enum_state enum_state' : UserEnum) (status : NssStatus)
        (s s' : Option NssState)
        → set_users engine murmur3_32 server scim_users enum_state s
          ≡ returns (status, enum_state', s')
        → Fine s
        → Fine s'
    unfolding set_users Holds
    set_users-Holds scim_users enum_state enum_state' status s s' e h = elim (lock-cases s) [
      | inl f ↦ subst Fine (ap (λ r. r.2) (returns_inj _ _ (rw (f, set_users) at e))) h
      | inr (state, same, f) ↦
          let held : Fine (some state) = subst Fine same h in
          elim (Call-cases (keep_users engine murmur3_32 server scim_users state.service)) [
            | inl g ↦ cc (rw (f, g, set_users) at e)
            | inr ((users, svc), g) ↦
                subst Fine (ap (λ r. r.2) (returns_inj _ _ (rw (f, g, set_users) at e)))
                  (keep_users-Holds scim_users state.service svc users g held)
          ]
    ]

    pub setpwent-Holds :
        (enum_state enum_state' : UserEnum) (status : NssStatus) (s s' : Option NssState)
        → setpwent engine murmur3_32 server enum_state s ≡ returns (status, enum_state', s')
        → Fine s
        → Fine s'
    unfolding setpwent
    setpwent-Holds enum_state enum_state' status none s' e h =
        subst Fine (ap (λ r. r.2) (returns_inj _ _ e)) h
    setpwent-Holds enum_state enum_state' status (some state) s' e h =
        elim (Outcome-cases (list_users server state.scim)) [
          | inl (scim_users, f) ↦
              set_users-Holds scim_users enum_state enum_state' status (some state) s'
                (rw (f, setpwent) at e) h
          | inr (inl (x, f)) ↦
              subst Fine (ap (λ r. r.2) (returns_inj _ _ (rw (f, setpwent) at e))) h
          | inr (inr f) ↦ cc (rw (f, setpwent) at e)
        ]

    -- One round of `setgrent`, and its loop.
    keep_group-Holds :
        (scim_group : ScimGroup) (r : Outcome ServiceError Group) (svc svc' : Service)
        (rest : Service → Call (List Group × Service)) (groups : List Group)
        → (scim_group_to_model engine murmur3_32 scim_group svc).0 ≡ r
        → ((s s' : Service) (gs : List Group) → rest s ≡ returns (gs, s') → P s → P s')
        → keep_group engine murmur3_32 server r svc rest ≡ returns (groups, svc')
        → P svc
        → P svc'
    unfolding keep_group
    keep_group-Holds sg (ok group) svc svc' rest groups made keeps e h =
        let stored : Service = with_group engine group svc in
        elim (Call-cases (rest stored)) [
          | inl f ↦ cc (rw (f, keep_group) at e)
          | inr ((gs, s'), f) ↦
              let same : s' ≡ svc' = ap (λ r. r.1) (returns_inj _ _ (rw (f, keep_group) at e)) in
              subst P same (keeps stored s' gs f (invariant.stores_group sg svc group made h))
        ]
    keep_group-Holds sg (err x) svc svc' rest groups made keeps e h = keeps svc svc' groups e h
    keep_group-Holds sg panic svc svc' rest groups made keeps e h = cc

    pub keep_groups-Holds :
        (scim_groups : List ScimGroup) (svc svc' : Service) (groups : List Group)
        → keep_groups engine murmur3_32 server scim_groups svc ≡ returns (groups, svc')
        → P svc
        → P svc'
    unfolding keep_groups
    keep_groups-Holds [] svc svc' groups e h = subst P (ap (λ r. r.1) (returns_inj _ _ e)) h
    keep_groups-Holds (sg ∷ scim_groups) svc svc' groups e h =
        let same = group_model-same engine murmur3_32 sg svc in
        keep_group-Holds sg _ svc svc' (keep_groups engine murmur3_32 server scim_groups) groups
          refl (λ s s' gs. keep_groups-Holds scim_groups s s' gs)
          (subst
            (λ s.
              keep_group engine murmur3_32 server (scim_group_to_model engine murmur3_32 sg svc).0 s
                (keep_groups engine murmur3_32 server scim_groups)
              ≡ returns (groups, svc'))
            same e)
          h

    set_groups-Holds :
        (scim_groups : List ScimGroup) (enum_state enum_state' : GroupEnum) (status : NssStatus)
        (s s' : Option NssState)
        → set_groups engine murmur3_32 server scim_groups enum_state s
          ≡ returns (status, enum_state', s')
        → Fine s
        → Fine s'
    unfolding set_groups Holds
    set_groups-Holds scim_groups enum_state enum_state' status s s' e h = elim (lock-cases s) [
      | inl f ↦ subst Fine (ap (λ r. r.2) (returns_inj _ _ (rw (f, set_groups) at e))) h
      | inr (state, same, f) ↦
          let held : Fine (some state) = subst Fine same h in
          elim (Call-cases (keep_groups engine murmur3_32 server scim_groups state.service)) [
            | inl g ↦ cc (rw (f, g, set_groups) at e)
            | inr ((groups, svc), g) ↦
                subst Fine (ap (λ r. r.2) (returns_inj _ _ (rw (f, g, set_groups) at e)))
                  (keep_groups-Holds scim_groups state.service svc groups g held)
          ]
    ]

    pub setgrent-Holds :
        (enum_state enum_state' : GroupEnum) (status : NssStatus) (s s' : Option NssState)
        → setgrent engine murmur3_32 server enum_state s ≡ returns (status, enum_state', s')
        → Fine s
        → Fine s'
    unfolding setgrent
    setgrent-Holds enum_state enum_state' status none s' e h =
        subst Fine (ap (λ r. r.2) (returns_inj _ _ e)) h
    setgrent-Holds enum_state enum_state' status (some state) s' e h =
        elim (Outcome-cases (list_groups server state.scim)) [
          | inl (scim_groups, f) ↦
              set_groups-Holds scim_groups enum_state enum_state' status (some state) s'
                (rw (f, setgrent) at e) h
          | inr (inl (x, f)) ↦
              subst Fine (ap (λ r. r.2) (returns_inj _ _ (rw (f, setgrent) at e))) h
          | inr (inr f) ↦ cc (rw (f, setgrent) at e)
        ]
