-- ===== src/Service/ByUid.antt =====
-- `lookup_user_by_uid` of src/service.rs and who is at the UID.
use mathlib.Core.Option.{some-injective}
use sssd_oidc.Prelude.{
  ℕ, ◌≡◌, refl, sym, ap, ◌∙◌, Option, none, some, inl, inr, Option-cases, Bool-cases,
}
use sssd_oidc.Text.{Str, str_eq_refl}
use sssd_oidc.Outcome.{ok, err}
use sssd_oidc.Exec.Success.{ok_inj}
use sssd_oidc.Model.{User}
use sssd_oidc.Config.{MappingConfig}
use sssd_oidc.Database.Rows.{IsUnique}
use sssd_oidc.Database.{UserRow, Engine, clash_users, is_fresh, select_user_by_uid}
use sssd_oidc.Cache.State.{Cache, sqlite}
use sssd_oidc.Cache.Queries.{get_user_by_uid}
use sssd_oidc.Cache.Select.{next_row_fails}
use sssd_oidc.Cache.Holder.{holder}
use sssd_oidc.Cache.Look.{read_fresh, read_stale, get_user_by_uid-look}
use sssd_oidc.Cache.Book.{read_entry}
use sssd_oidc.Service.{Service, lookup_user_by_uid}
use sssd_oidc.Service.Calls.{read_cache-ok}
use sssd_oidc.Service.Placement.{IsSettled, IsAt}

-- A user that is read is the row's.
read_entry-id :
    (now ttl : ℕ) (held : Option UserRow) (found : User)
    → read_entry now ttl held ≡ some found
    → (r : UserRow) × (held ≡ some r) × (r.external_id ≡ found.external_id)
read_entry-id now ttl none found h = cc
read_entry-id now ttl (some r) found h = elim (Bool-cases (is_fresh now ttl r.cached_at)) [
  | inl fresh ↦
      let same = some-injective _ _ (sym (read_fresh now ttl r fresh) ∙ h) in
      (r, refl, ap (λ u. u.external_id) same)
  | inr stale ↦ cc (read_stale now ttl r stale, h)
]

get_user_by_uid-row :
    (reader : Engine) (cache : Cache) (uid : ℕ) (found : User)
    → IsUnique clash_users cache.conn.uid_cache
    → get_user_by_uid reader cache uid ≡ ok (some found)
    → (r : UserRow) × (holder cache.conn uid ≡ some r) × (r.external_id ≡ found.external_id)
unfolding get_user_by_uid
get_user_by_uid-row reader cache uid found unique h =
    let statement = select_user_by_uid uid cache.ttl_seconds in
    elim (Option-cases (reader.fault statement cache.conn)) [
      | inl works ↦
          read_entry-id _ _ (holder cache.conn uid) found
            (ok_inj _ _ (sym (get_user_by_uid-look reader cache uid unique works) ∙ h))
      | inr (x, e) ↦
          let fails : get_user_by_uid reader cache uid ≡ err (sqlite x) =
            rw (next_row_fails reader statement cache.conn x _ e) refl in
          cc (fails, h)
    ]

pub lookup_user_by_uid-IsAt :
    (murmur3_32 : Str → ℕ → Option ℕ) (mapping : MappingConfig) (reader : Engine) (uid : ℕ)
    (svc svc' : Service) (found : User)
    → IsSettled murmur3_32 mapping svc
    → lookup_user_by_uid reader murmur3_32 uid svc ≡ (ok (some found), svc')
    → IsAt murmur3_32 mapping found.external_id uid svc
unfolding lookup_user_by_uid
lookup_user_by_uid-IsAt murmur3_32 mapping reader uid svc svc' found settled h =
    let (r, held, own) =
      get_user_by_uid-row reader svc.cache uid found settled.unique (read_cache-ok _ svc svc' h) in
    record { settled = settled; owner = rw (held, own, str_eq_refl found.external_id) refl }
