-- ===== src/Service/StoredUser.antt =====
-- `store_user` of src/cache.rs, as src/service.rs and crates/nss_oidc call it.
use mathlib.Core.Option.{some-injective}
use sssd_oidc.Prelude.{ℕ, sym, subst, ap, ◌∙◌, inl, inr}
use sssd_oidc.Model.{User}
use sssd_oidc.Database.{Engine, replace_user, run_replace_user}
use sssd_oidc.Cache.Updates.{run, store_user}
use sssd_oidc.Cache.Executes.{execute-cases}
use sssd_oidc.Service.{Service}
use sssd_oidc.Service.Invariant.{with_user}

-- `store_user` fails and changes nothing, or stores the user.
pub stored-cases :
    (engine : Engine) (P : Service → Type 0) (user : User) (svc : Service)
    → P svc
    → ((now : ℕ)
        → P (record svc {
          cache = record svc.cache { conn = run_replace_user now user svc.cache.conn };
        }))
    → P (with_user engine user svc)
unfolding store_user run
stored-cases engine P user svc h ran_to =
    elim (execute-cases engine (replace_user user) svc.cache) [
      | inl same ↦ subst P (ap (λ c. record svc { cache = c }) (sym same)) h
      | inr (db, ran, same) ↦
          subst P
            (ap (λ c. record svc { cache = c })
              (ap (λ d. record svc.cache { conn = d }) (some-injective _ _ ran) ∙ sym same))
            (ran_to (engine.clock (replace_user user) svc.cache.conn))
    ]
