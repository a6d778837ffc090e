-- ===== src/Mapping/Bounds.antt =====
-- Where the ids that src/mapping.rs gives lie, and when it panics.
use sssd_oidc.Prelude.{
  ℕ, zero, suc, ◌+◌, ◌≤◌, ◌<◌, ◌≡◌, ◌≢◌, refl, Bool, true, false, Option, none, some, inl, inr,
  arith, ◌==◌, ◌↔◌, Bool-cases,
}
use sssd_oidc.Text.{Str}
use sssd_oidc.Outcome.{Outcome, ok, err, panic, ◌>>=◌}
use sssd_oidc.Mapping.{FromExhausted, id_to_uid, candidate_at, accept, probe, resolve_id}
use sssd_oidc.Mapping.Range.{IsRange, slot_bounds}
use sssd_oidc.Mapping.Probing.{resolve_id-IsFirst_iff}

module _ {E : Type 0} ⦃from_exhausted : FromExhausted E⦄ (murmur3_32 : Str → ℕ → Option ℕ)
    (range_min range_size : ℕ) (external_id : Str) (hash : ℕ)
    (hashed : murmur3_32 external_id 0 ≡ some hash) (is_taken : ℕ → Outcome E (Option Bool)) where
  -- In a range that fits u32 and has at most 2^31 ids, an id that `resolve_id` returns lies in the
  -- range, and the test has answered for it that it is free or the external id's own.
  pub resolve_id_bounds :
      (u : ℕ)
      → IsRange range_min range_size
      → resolve_id murmur3_32 external_id range_min range_size is_taken ≡ ok u
      → (range_min ≤ u) × (u < range_min + range_size) × (is_taken u ≢ ok (some false))
  resolve_id_bounds u range h =
      let f = (resolve_id-IsFirst_iff murmur3_32 range external_id hash hashed is_taken u).0 h in
      let (low, high) = slot_bounds range hash f.round in
      let here = f.here in
      (omega arith, omega arith, (λ taken. elim f.accepted [ inl e ↦ cc | inr e ↦ cc ]))

  accept-≢panic :
      (c : ℕ) (next : Outcome E ℕ) (answer : Outcome E (Option Bool))
      → answer ≢ panic
      → next ≢ panic
      → (answer >>= accept c next) ≢ panic
  unfolding accept
  accept-≢panic c next (ok none) p q = λ h. cc
  accept-≢panic c next (ok (some true)) p q = λ h. cc
  accept-≢panic c next (ok (some false)) p q = q
  accept-≢panic c next (err e) p q = λ h. cc
  accept-≢panic c next panic p q = absurd (p refl)

  probe-≢panic :
      (base rounds offset : ℕ)
      → 0 < range_size
      → ((c : ℕ) → is_taken c ≢ panic)
      → probe range_min range_size base is_taken rounds offset ≢ panic
  unfolding probe candidate_at accept
  probe-≢panic base zero offset p q = λ h. cc
  probe-≢panic base (suc rounds) offset p q =
      let positive : (range_size == 0) ≡ false = ground arith in
      rw (positive, probe)
        (accept-≢panic _ _ (is_taken _) (q _) (probe-≢panic base rounds (offset + 1) p q))

  -- If the test does not panic, `resolve_id` panics exactly when the range is empty, by the division by
  -- its size; no other range, whatever its bounds, makes it panic.
  pub resolve_id-≡panic_iff :
      ((c : ℕ) → is_taken c ≢ panic)
      → (resolve_id murmur3_32 external_id range_min range_size is_taken ≡ panic) ↔ (range_size ≡ 0)
  unfolding resolve_id id_to_uid
  resolve_id-≡panic_iff quiet = (
    (λ h. elim (Bool-cases (range_size == 0)) [
      | inl empty ↦ ground arith
      | inr positive ↦ absurd (
          probe-≢panic _ range_size 0 (ground arith) quiet (rw (hashed, positive, resolve_id) at h))
    ]),
    (λ e. rw (hashed, e, resolve_id) refl),
  )
