-- ===== src/Mapping/Probing.antt =====
-- `resolve_id` of src/mapping.rs returns the first slot, in probing order, that is free or already
-- the id's own, and reports exhaustion exactly when every id of the range is held by others.
use native.Mathlib.Decide.{dec_lt}
use sssd_oidc.Prelude.{
  ℕ, zero, suc, ◌+◌, ◌≤◌, ◌<◌, ◌≡◌, refl, sym, Bool, true, false, Option, none, some, inl, inr, ◌⊎◌,
  ◌↔◌, ◌∙◌, ap, subst, arith,
}
use sssd_oidc.Text.{Str}
use sssd_oidc.Outcome.{Outcome, ok, err, panic, ◌>>=◌}
use sssd_oidc.Mapping.{FromExhausted, id_range_exhausted, accept, probe, resolve_id}
use sssd_oidc.Mapping.Range.{IsRange, slot, slot_bounds, slot_onto, id_to_uid_lem, candidate_at_lem}

module _ {E : Type 0} where
  -- An answer on which the probing ends with the slot.
  abbrev pub Accepts : Outcome E (Option Bool) → Type 0
  Accepts answer = (answer ≡ ok none) ⊎ (answer ≡ ok (some true))

  -- `u` is the first slot of the sequence, from the given round on, that is accepted.
  pub record IsFirst (range_min range_size hash : ℕ) (is_taken : ℕ → Outcome E (Option Bool))
      (start u : ℕ) : Type 0 where
    pub round : ℕ
    pub after : start ≤ round
    pub in_time : round < range_size
    pub here : slot range_min range_size hash round ≡ u
    pub accepted : Accepts (is_taken u)
    pub passed :
        (j : ℕ)
        → start ≤ j
        → j < round
        → is_taken (slot range_min range_size hash j) ≡ ok (some false)

  -- The answers apart from acceptance.
  data Answer : Outcome E (Option Bool) → Type 0 where
    accepts : {o : Outcome E (Option Bool)} → Accepts o → Answer o
    other : {o : Outcome E (Option Bool)} → o ≡ ok (some false) → Answer o
    fails : {o : Outcome E (Option Bool)} (e : E) → o ≡ err e → Answer o
    panics : {o : Outcome E (Option Bool)} → o ≡ panic → Answer o

  Answer-cases : (o : Outcome E (Option Bool)) → Answer o
  Answer-cases (ok none) = accepts (inl refl)
  Answer-cases (ok (some true)) = accepts (inr refl)
  Answer-cases (ok (some false)) = other refl
  Answer-cases (err e) = fails e refl
  Answer-cases panic = panics refl

  accept_of_Accepts :
      (next : Outcome E ℕ) (c : ℕ) (a : Outcome E (Option Bool))
      → Accepts a
      → (a >>= accept c next) ≡ ok c
  unfolding accept
  accept_of_Accepts next c a (inl e) = rw e
  accept_of_Accepts next c a (inr e) = rw e

module _ {E : Type 0} ⦃from_exhausted : FromExhausted E⦄ {range_min range_size : ℕ}
    (range : IsRange range_min range_size) (hash : ℕ) (is_taken : ℕ → Outcome E (Option Bool)) where
  run : ℕ → ℕ → Outcome E ℕ
  run = probe range_min range_size (slot range_min range_size hash 0) is_taken

  run-zero : (k : ℕ) → run 0 k ≡ err (from_exhausted.from id_range_exhausted)
  unfolding run probe
  run-zero k = refl

  -- One round, with the arithmetic done.
  run-suc :
      (rounds k : ℕ)
      → k < range_size
      → run (suc rounds) k ≡ (
          is_taken (slot range_min range_size hash k)
          >>= accept (slot range_min range_size hash k) (run rounds (k + 1)))
  unfolding run probe
  run-suc rounds k h = rw (candidate_at_lem range hash k h)

  module _ (rounds k : ℕ) (h : k < range_size) where
    run-Accepts :
        Accepts (is_taken (slot range_min range_size hash k))
        → run (suc rounds) k ≡ ok (slot range_min range_size hash k)
    run-Accepts a = run-suc rounds k h ∙ accept_of_Accepts _ _ _ a

    run_other :
        is_taken (slot range_min range_size hash k) ≡ ok (some false)
        → run (suc rounds) k ≡ run rounds (k + 1)
    unfolding accept
    run_other e = rw (run-suc rounds k h, e)

    run_fails :
        (e : E) → is_taken (slot range_min range_size hash k) ≡ err e → run (suc rounds) k ≡ err e
    run_fails e p = rw (run-suc rounds k h, p)

    run_panics : is_taken (slot range_min range_size hash k) ≡ panic → run (suc rounds) k ≡ panic
    run_panics p = rw (run-suc rounds k h, p)

  abbrev First : ℕ → ℕ → Type 0
  First = IsFirst range_min range_size hash is_taken

  First-here :
      (k : ℕ)
      → k < range_size
      → Accepts (is_taken (slot range_min range_size hash k))
      → First k (slot range_min range_size hash k)
  First-here k h a = record {
    round = k;
    after = omega arith;
    in_time = h;
    here = refl;
    accepted = a;
    passed = λ j p q. absurd (omega arith);
  }

  passed_here :
      (k j : ℕ)
      → is_taken (slot range_min range_size hash k) ≡ ok (some false)
      → ((i : ℕ)
          → k + 1 ≤ i
          → i < j
          → is_taken (slot range_min range_size hash i) ≡ ok (some false))
      → (i : ℕ) → k ≤ i
      → i < j
      → is_taken (slot range_min range_size hash i) ≡ ok (some false)
  passed_here k j e rest i p q = elim (dec_lt k i) [
    | yes lt ↦ rest i (omega arith) q
    | no ge ↦ let same : i ≡ k = omega arith in rw same e
  ]

  First-before :
      (k u : ℕ)
      → is_taken (slot range_min range_size hash k) ≡ ok (some false)
      → First (k + 1) u
      → First k u
  First-before k u e f = record {
    round = f.round;
    after = omega (arith, f.after);
    in_time = f.in_time;
    here = f.here;
    accepted = f.accepted;
    passed = passed_here k f.round e f.passed;
  }

  First-after : (k u : ℕ) (f : First k u) → k < f.round → First (k + 1) u
  First-after k u f later = record {
    round = f.round;
    after = omega arith;
    in_time = f.in_time;
    here = f.here;
    accepted = f.accepted;
    passed = λ j p q. f.passed j (omega arith) q;
  }

  run-First : (rounds k u : ℕ) → k + rounds ≡ range_size → run rounds k ≡ ok u → First k u
  run-First zero k u n h = cc (run-zero k)
  run-First (suc rounds) k u n h =
      let lt : k < range_size = omega arith in
      elim (Answer-cases (is_taken (slot range_min range_size hash k))) [
        | accepts a ↦
            let e : slot range_min range_size hash k ≡ u = cc (run-Accepts rounds k lt a) in
            subst (First k) e (First-here k lt a)
        | other e ↦
            First-before k u e
              (run-First rounds (k + 1) u (omega arith) (sym (run_other rounds k lt e) ∙ h))
        | fails e p ↦ cc (run_fails rounds k lt e p)
        | panics p ↦ cc (run_panics rounds k lt p)
      ]

  First-run : (rounds k u : ℕ) → k + rounds ≡ range_size → First k u → run rounds k ≡ ok u
  First-run zero k u n f = absurd (omega (arith, f.after, f.in_time))
  First-run (suc rounds) k u n f =
      let lt : k < range_size = omega arith in
      elim (dec_lt k f.round) [
        | yes later ↦
            run_other rounds k lt (f.passed k (omega arith) later)
            ∙ First-run rounds (k + 1) u (omega arith) (First-after k u f later)
        | no now ↦
            let same : f.round ≡ k = omega (arith, f.after) in
            let e : slot range_min range_size hash k ≡ u = rw (← same) f.here in
            run-Accepts rounds k lt (rw e f.accepted) ∙ ap ok e
      ]

  run-exhausted :
      (rounds k : ℕ)
      → k + rounds ≡ range_size
      → ((j : ℕ)
          → k ≤ j
          → j < range_size
          → is_taken (slot range_min range_size hash j) ≡ ok (some false))
      → run rounds k ≡ err (from_exhausted.from id_range_exhausted)
  run-exhausted zero k n h = run-zero k
  run-exhausted (suc rounds) k n h =
      let lt : k < range_size = omega arith in
      run_other rounds k lt (h k (omega arith) lt)
      ∙ run-exhausted rounds (k + 1) (omega arith) (λ j p q. h j (omega arith) q)

  exhausted-run :
      (rounds k : ℕ)
      → k + rounds ≡ range_size
      → ((c : ℕ) → (o : Option Bool) × (is_taken c ≡ ok o))
      → run rounds k ≡ err (from_exhausted.from id_range_exhausted)
      → (j : ℕ) → k ≤ j
      → j < range_size
      → is_taken (slot range_min range_size hash j) ≡ ok (some false)
  exhausted-run zero k n answers h j p q = absurd (omega arith)
  exhausted-run (suc rounds) k n answers h j p q =
      let lt : k < range_size = omega arith in
      let (o, answered) = answers (slot range_min range_size hash k) in
      elim (Answer-cases (is_taken (slot range_min range_size hash k))) [
        | accepts a ↦ cc (run-Accepts rounds k lt a)
        | other e ↦
            passed_here k range_size e
              (exhausted-run rounds (k + 1) (omega arith) answers
                (sym (run_other rounds k lt e) ∙ h))
              j p q
        | fails e f ↦ cc (f, answered)
        | panics f ↦ cc (f, answered)
      ]

module _ {E : Type 0} ⦃from_exhausted : FromExhausted E⦄ (murmur3_32 : Str → ℕ → Option ℕ)
    {range_min range_size : ℕ} (range : IsRange range_min range_size) (external_id : Str) (hash : ℕ)
    (hashed : murmur3_32 external_id 0 ≡ some hash) (is_taken : ℕ → Outcome E (Option Bool)) where
  resolve_id-run :
      resolve_id murmur3_32 external_id range_min range_size is_taken
      ≡ run range hash is_taken range_size 0
  unfolding resolve_id run
  resolve_id-run = rw (id_to_uid_lem range murmur3_32 external_id hash hashed)

  -- In a range that fits u32 and has at most 2^31 ids, `resolve_id` returns `u` exactly when `u` is
  -- the first slot of the probing sequence whose test says that it is free or the id's own.
  pub resolve_id-IsFirst_iff :
      (u : ℕ)
      → (resolve_id murmur3_32 external_id range_min range_size is_taken ≡ ok u)
        ↔ IsFirst range_min range_size hash is_taken 0 u
  resolve_id-IsFirst_iff u = (
    (λ h. run-First range hash is_taken range_size 0 u (omega arith) (sym resolve_id-run ∙ h)),
    (λ f. resolve_id-run ∙ First-run range hash is_taken range_size 0 u (omega arith) f),
  )

  -- In a range that fits u32 and has at most 2^31 ids, if every test answers, `resolve_id` reports that
  -- the range is exhausted exactly when each id from `range_min` up to the end of the range is held by another external id.
  pub resolve_id-exhausted_iff :
      ((c : ℕ) → (o : Option Bool) × (is_taken c ≡ ok o))
      → (resolve_id murmur3_32 external_id range_min range_size is_taken
          ≡ err (from_exhausted.from id_range_exhausted))
        ↔ ((u : ℕ) → range_min ≤ u → u < range_min + range_size → is_taken u ≡ ok (some false))
  resolve_id-exhausted_iff answers = (
    (λ h u low high.
        let (k, lt, e) = slot_onto range hash u low high in
        let all =
          exhausted-run range hash is_taken range_size 0 (omega arith) answers
            (sym resolve_id-run ∙ h) in
        rw (← e) (all k (omega arith) lt)),
    (λ all.
        resolve_id-run
        ∙ run-exhausted range hash is_taken range_size 0 (omega arith)
            (λ j p q. let (low, high) = slot_bounds range hash j in all _ low high)),
  )
