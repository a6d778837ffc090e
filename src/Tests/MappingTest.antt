-- ===== src/Tests/MappingTest.antt =====
-- Runs of src/mapping.rs.
use sssd_oidc.Prelude.{
  Bool-cases, inl, inr, ℕ, ◌≤◌, ◌<◌, ◌+◌, ◌≡◌, ◌≢◌, ◌↔◌, refl, Bool, false, none, some, ◌==◌,
  if◌then◌else◌, [], Option,
}
use sssd_oidc.Outcome.{Outcome, ok, err, panic}
use sssd_oidc.Mapping.{resolve_id}
use sssd_oidc.Mapping.Bounds.{resolve_id-≡panic_iff}
use sssd_oidc.Mapping.Probing.{IsFirst, resolve_id-IsFirst_iff, resolve_id-exhausted_iff}
use sssd_oidc.Cache.State.{CacheError, cache_error_from_exhausted, range_exhausted}
use sssd_oidc.Tests.Fixtures.{hash_7, IsRange-1000}

-- Slot 1007 is held by another id.
abbrev taken_1007 : ℕ → Outcome CacheError (Option Bool)
taken_1007 uid = if uid == 1007 then ok (some false) else ok none

resolve_id-IsFirst_iff_example :
    (resolve_id hash_7 [] 1000 10 taken_1007 ≡ ok 1008) ↔ IsFirst 1000 10 7 taken_1007 0 1008
resolve_id-IsFirst_iff_example =
    resolve_id-IsFirst_iff hash_7 IsRange-1000 [] 7 refl taken_1007 1008

abbrev all_taken : ℕ → Outcome CacheError (Option Bool)
all_taken uid = ok (some false)

resolve_id-exhausted_iff_example :
    (resolve_id hash_7 [] 1000 10 all_taken ≡ err range_exhausted)
    ↔ ((u : ℕ) → 1000 ≤ u → u < 1000 + 10 → all_taken u ≡ ok (some false))
resolve_id-exhausted_iff_example =
    resolve_id-exhausted_iff hash_7 IsRange-1000 [] 7 refl all_taken (λ c. (some false, refl))

found_1008 : resolve_id hash_7 [] 1000 10 taken_1007 ≡ ok 1008
unfolding resolve_id
found_1008 = refl

taken_1007-≢panic : (c : ℕ) → taken_1007 c ≢ panic
taken_1007-≢panic c = elim (Bool-cases (c == 1007)) [
  | inl e ↦ rw e (λ h. cc)
  | inr e ↦ rw e (λ h. cc)
]

resolve_id-≡panic_iff_example : (resolve_id hash_7 [] 1000 0 taken_1007 ≡ panic) ↔ ◌≡◌ {A = ℕ} 0 0
resolve_id-≡panic_iff_example =
    resolve_id-≡panic_iff hash_7 1000 0 [] 7 refl taken_1007 taken_1007-≢panic
