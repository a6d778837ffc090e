-- ===== src/Service/Calls.antt =====
-- The calls of cache methods that src/service.rs makes, and what those that returned have done.
use sssd_oidc.Prelude.{◌≡◌, refl, ap}
use sssd_oidc.Outcome.{Outcome, ok, err, panic, map_err}
use sssd_oidc.Exec.{Exec}
use sssd_oidc.Cache.State.{Cache, CacheError}
use sssd_oidc.Service.{Service, cache_error, on_cache, read_cache}

pub map_err-ok :
    {A : Type 0} (r : Outcome CacheError A) {a : A} → map_err cache_error r ≡ ok a → r ≡ ok a
map_err-ok (ok a) h = cc
map_err-ok (err e) h = cc
map_err-ok panic h = cc

-- A cache method that returns to the service has returned.
pub on_cache-ok :
    {A : Type 0} (m : Exec Cache CacheError A) (svc svc' : Service) (a : A)
    → on_cache m svc ≡ (ok a, svc')
    → m svc.cache ≡ (ok a, svc'.cache)
unfolding on_cache
on_cache-ok m svc svc' a h =
    let returned : (m svc.cache).0 ≡ ok a = map_err-ok (m svc.cache).0 (ap (λ r. r.0) h) in
    let kept : (m svc.cache).1 ≡ svc'.cache = ap (λ r. r.1.cache) h in λ i. (returned i, kept i)

pub read_cache-ok :
    {A : Type 0} (f : Cache → Outcome CacheError A) (svc svc' : Service) {a : A}
    → read_cache f svc ≡ (ok a, svc')
    → f svc.cache ≡ ok a
unfolding read_cache
read_cache-ok f svc svc' h = map_err-ok (f svc.cache) (ap (λ r. r.0) h)

pub read_cache_same :
    {A : Type 0} (f : Cache → Outcome CacheError A) (svc : Service) → (read_cache f svc).1 ≡ svc
unfolding read_cache
read_cache_same f svc = refl
