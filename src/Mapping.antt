-- ===== src/Mapping.antt =====
-- src/mapping.rs: an external id is hashed to a slot of the configured range, and later slots are
-- probed while the slot is held by another id.
-- `murmur3_32` is the crate's: it hashes the bytes that it reads, from a seed, and may fail to
-- read (`none`). Arithmetic is on u32 and wraps, as in a release build; `% 0` panics.
pub mod Range
pub mod Probing
pub mod First
pub mod Bounds
use sssd_oidc.Prelude.{
  ℕ, zero, suc, ◌+◌, ◌-◌, ◌%◌, ◌^◌, Bool, true, false, Option, none, some, ◌==◌, if◌then◌else◌,
}
use sssd_oidc.Text.{Str}
use sssd_oidc.Outcome.{Outcome, ok, err, panic, ◌>>=◌}

pub data IdRangeExhausted : Type 0 where
  id_range_exhausted : IdRangeExhausted

-- `E: From<IdRangeExhausted>`
pub record FromExhausted (E : Type 0) : Type 0 where
  pub from : IdRangeExhausted → E

abbrev pub add32 : ℕ → ℕ → ℕ
add32 a b = (a + b) % 2 ^ 32

abbrev pub sub32 : ℕ → ℕ → ℕ
sub32 a b = (a + 2 ^ 32 - b) % 2 ^ 32

-- `a % b` on u32
abbrev pub rem32 : {E : Type 0} → ℕ → ℕ → Outcome E ℕ
rem32 a b = if b == 0 then panic else ok (a % b)

-- `.expect(…)`
abbrev pub expect {κ} : {E : Type 0} {A : Type κ} → Option A → Outcome E A
expect none = panic
expect (some a) = ok a

module _ (murmur3_32 : Str → ℕ → Option ℕ) where
  unfoldable pub id_to_uid : {E : Type 0} → Str → ℕ → ℕ → Outcome E ℕ
  id_to_uid external_id range_min range_size = do
    hash ← expect (murmur3_32 external_id 0)
    within ← rem32 hash range_size
    ok (add32 range_min within)

-- The slot of one round of the loop.
pub candidate_at : {E : Type 0} → ℕ → ℕ → ℕ → ℕ → Outcome E ℕ
candidate_at range_min range_size base offset = do
  within ← rem32 (add32 (sub32 base range_min) offset) range_size
  ok (add32 range_min within)

-- The `match`: `next` is the rest of the loop.
accept : {E : Type 0} → ℕ → Outcome E ℕ → Option Bool → Outcome E ℕ
accept candidate next none = ok candidate
accept candidate next (some true) = ok candidate
accept candidate next (some false) = next

module _ {E : Type 0} ⦃from_exhausted : FromExhausted E⦄ where
  -- `for offset in 0..range_size`, with the rounds left and the offset of the next one
  probe : ℕ → ℕ → ℕ → (ℕ → Outcome E (Option Bool)) → ℕ → ℕ → Outcome E ℕ
  probe range_min range_size base is_taken zero offset =
      err (from_exhausted.from id_range_exhausted)
  probe range_min range_size base is_taken (suc rounds) offset =
      let next = probe range_min range_size base is_taken rounds (offset + 1) in
      do
        candidate ← candidate_at range_min range_size base offset
        held ← is_taken candidate
        accept candidate next held

  module _ (murmur3_32 : Str → ℕ → Option ℕ) where
    unfoldable pub resolve_id : Str → ℕ → ℕ → (ℕ → Outcome E (Option Bool)) → Outcome E ℕ
    unfolding id_to_uid candidate_at accept probe
    resolve_id external_id range_min range_size is_taken = do
      base ← id_to_uid murmur3_32 external_id range_min range_size
      probe range_min range_size base is_taken range_size 0
