-- ===== src/Mapping/Range.antt =====
-- The slots of a range: the arithmetic of src/mapping.rs where nothing wraps.
use native.Mathlib.Nat.{mod-eq_of_lt, mod-lt, mod-mod, mod-eq-sub-mod, le-add_left, add-zero}
use native.Mathlib.Decide.{dec_le}
use sssd_oidc.Prelude.{ℕ, ◌+◌, ◌-◌, ◌%◌, ◌^◌, ◌≤◌, ◌<◌, ◌≡◌, some, arith, Option}
use sssd_oidc.Text.{Str}
use sssd_oidc.Outcome.{ok}
use sssd_oidc.Mapping.{id_to_uid, candidate_at, add32, sub32}

-- A range whose ids are u32 values, and which the probe sequence goes round without wrapping.
pub record IsRange (range_min range_size : ℕ) : Type 0 where
  pub nonempty : 0 < range_size
  pub fits : range_min + range_size ≤ 2 ^ 32
  pub no_wrap : range_size ≤ 2 ^ 31

-- The k-th slot that an id with this hash tries.
abbrev pub slot : ℕ → ℕ → ℕ → ℕ → ℕ
slot range_min range_size hash k = range_min + (hash % range_size + k) % range_size

-- Going round from r reaches every residue.
reach_residue : (n r d : ℕ) → r < n → d < n → (k : ℕ) × (k < n) × ((r + k) % n ≡ d)
reach_residue n r d p q = elim (dec_le r d) [
  | yes h ↦ (d - r, omega arith, (let e : r + (d - r) ≡ d = omega arith in rw e (mod-eq_of_lt q)))
  | no h ↦ (
    d + n - r,
    omega arith,
    (let e : r + (d + n - r) ≡ d + n = omega arith in
        let e' : d + n - n ≡ d = omega arith in
        rw (e, mod-eq-sub-mod (le-add_left n d), e') (mod-eq_of_lt q)),
  )
]

module _ {range_min range_size : ℕ} (range : IsRange range_min range_size) where
  pub slot_bounds :
      (hash k : ℕ)
      → (range_min ≤ slot range_min range_size hash k)
        × (slot range_min range_size hash k < range_min + range_size)
  slot_bounds hash k =
      let q : (hash % range_size + k) % range_size < range_size = mod-lt _ range.nonempty in
      (omega arith, omega arith)

  pub id_to_uid_lem :
      {E : Type 0} (murmur3_32 : Str → ℕ → Option ℕ) (external_id : Str) (hash : ℕ)
      → murmur3_32 external_id 0 ≡ some hash
      → id_to_uid murmur3_32 {E = E} external_id range_min range_size
        ≡ ok (slot range_min range_size hash 0)
  unfolding id_to_uid
  id_to_uid_lem murmur3_32 external_id hash h =
      let (low, high) = slot_bounds hash 0 in
      let p : 0 < range_size = range.nonempty in
      let f : range_min + range_size ≤ 2 ^ 32 = range.fits in
      let g : (hash % range_size + 0) % range_size ≡ hash % range_size =
        rw (add-zero) (mod-mod hash range_size) in
      rw h (ground arith)

  pub candidate_at_lem :
      {E : Type 0} (hash k : ℕ)
      → k < range_size
      → candidate_at {E = E} range_min range_size (slot range_min range_size hash 0) k
        ≡ ok (slot range_min range_size hash k)
  unfolding candidate_at
  candidate_at_lem hash k h =
      let (low, high) = slot_bounds hash k in
      let p : 0 < range_size = range.nonempty in
      let f : range_min + range_size ≤ 2 ^ 32 = range.fits in
      let g : range_size ≤ 2 ^ 31 = range.no_wrap in
      let r : hash % range_size < range_size = mod-lt hash p in
      let e : add32 (sub32 (slot range_min range_size hash 0) range_min) k ≡ hash % range_size + k =
        rw (add-zero, mod-mod) (omega arith) in
      rw e (ground arith)

  -- Every id of the range is some slot.
  pub slot_onto :
      (hash u : ℕ)
      → range_min ≤ u
      → u < range_min + range_size
      → (k : ℕ) × (k < range_size) × (slot range_min range_size hash k ≡ u)
  slot_onto hash u low high =
      let p : 0 < range_size = range.nonempty in
      let (k, lt, e) =
        reach_residue range_size (hash % range_size) (u - range_min) (mod-lt hash p)
          (omega arith) in
      (k, lt, omega arith)
