-- ===== src/Mapping/First.antt =====
-- The first slot of src/mapping.rs under one test or another.
use native.Mathlib.Decide.{dec_lt}
use sssd_oidc.Prelude.{ℕ, ◌≡◌, ◌≢◌, sym, ap, ◌∙◌, Bool, false, Option, some, inl, inr, arith}
use sssd_oidc.Outcome.{Outcome, ok}
use sssd_oidc.Mapping.Range.{slot}
use sssd_oidc.Mapping.Probing.{IsFirst, Accepts}

module _ {E : Type 0} {range_min range_size hash : ℕ} {is_taken : ℕ → Outcome E (Option Bool)} where
  -- There is one first slot.
  pub IsFirst-unique :
      (u v : ℕ)
      → IsFirst range_min range_size hash is_taken 0 u
      → IsFirst range_min range_size hash is_taken 0 v
      → u ≡ v
  IsFirst-unique u v f g = elim (dec_lt f.round g.round) [
    | yes lt ↦ absurd (refused f (g.passed f.round (omega arith) lt))
    | no ge ↦ elim (dec_lt g.round f.round) [
      | yes lt ↦ absurd (refused g (f.passed g.round (omega arith) lt))
      | no ge' ↦
          let same : f.round ≡ g.round = omega arith in
          sym f.here ∙ ap (slot range_min range_size hash) same ∙ g.here
    ]
  ]
    where
      refused :
          {w : ℕ} (k : IsFirst range_min range_size hash is_taken 0 w)
          → is_taken (slot range_min range_size hash k.round) ≢ ok (some false)
      refused k h = elim k.accepted [
        | inl e ↦ cc (ap is_taken k.here)
        | inr e ↦ cc (ap is_taken k.here)
      ]

  -- Other answers, where the slot is still accepted and what was passed is still passed.
  pub IsFirst-map :
      {F : Type 0} (is_taken' : ℕ → Outcome F (Option Bool)) (u : ℕ)
      → IsFirst range_min range_size hash is_taken 0 u
      → Accepts (is_taken' u)
      → ((c : ℕ) → is_taken c ≡ ok (some false) → is_taken' c ≡ ok (some false))
      → IsFirst range_min range_size hash is_taken' 0 u
  IsFirst-map is_taken' u f accepts keeps = record {
    round = f.round;
    after = f.after;
    in_time = f.in_time;
    here = f.here;
    accepted = accepts;
    passed = λ j p q. keeps _ (f.passed j p q);
  }
