-- ===== src/Database/Rows.antt =====
-- Tables as lists of rows with a symmetric test for rows that violate a uniqueness constraint
-- together.
use sssd_oidc.Prelude.{
  ◌≡◌, refl, if◌then◌else◌, Bool, true, false, not, List, [], ◌∷◌, ◌++◌, inl, inr, Bool-cases, keep,
  All, All-keep, All-append, All-keep_self, keep-append, keep-eq-nil, keep_comm, append-nil,
  All-map, ◌⊎◌, arith,
}

module _ {ℓ} {A : Type ℓ} where
  -- INSERT OR REPLACE: what clashes with the new row is deleted first.
  unfoldable pub upsert : (A → A → Bool) → A → List A → List A
  upsert clash row rows = keep (λ r. not (clash row r)) rows ++ row ∷ []

  -- No two rows clash.
  abbrev pub IsUnique : (A → A → Bool) → List A → Type 0
  IsUnique clash [] = Unit
  IsUnique clash (x ∷ xs) = All (λ y. clash x y ≡ false) xs × IsUnique clash xs

-- What holds of the new row and of the old ones.
pub All-upsert {ℓ κ} :
    {A : Type ℓ} (P : A → Type κ) (clash : A → A → Bool) (row : A) (rows : List A)
    → P row
    → All P rows
    → All P (upsert clash row rows)
unfolding upsert
All-upsert P clash row rows h hs =
    All-append P (keep (λ r. not (clash row r)) rows) (row ∷ []) (All-keep P _ rows hs) (h, tt)

module _ {ℓ} {A : Type ℓ} (clash : A → A → Bool) where
  pub IsUnique-keep : (p : A → Bool) (xs : List A) → IsUnique clash xs → IsUnique clash (keep p xs)
  unfolding keep
  IsUnique-keep p [] h = tt
  IsUnique-keep p (x ∷ xs) (h, hs) = elim (Bool-cases (p x)) [
    | inl e ↦ rw e (All-keep _ p xs h, IsUnique-keep p xs hs)
    | inr e ↦ rw e (IsUnique-keep p xs hs)
  ]

  pub IsUnique-append :
      (xs : List A) (row : A)
      → IsUnique clash xs
      → All (λ x. clash x row ≡ false) xs
      → IsUnique clash (xs ++ row ∷ [])
  IsUnique-append [] row h k = (tt, tt)
  IsUnique-append (x ∷ xs) row (h, hs) (k, ks) =
      (All-append _ xs (row ∷ []) h (k, tt), IsUnique-append xs row hs ks)

  module _ (clash_symm : (a b : A) → clash a b ≡ clash b a) (row : A) where
    not_clashing :
        (xs : List A) → All (λ r. not (clash row r) ≡ true) xs → All (λ x. clash x row ≡ false) xs
    not_clashing [] h = tt
    not_clashing (x ∷ xs) (h, hs) = (ground (arith, clash_symm x row), not_clashing xs hs)

    pub IsUnique-upsert : (xs : List A) → IsUnique clash xs → IsUnique clash (upsert clash row xs)
    unfolding upsert
    IsUnique-upsert xs h =
        IsUnique-append _ row (IsUnique-keep _ xs h) (not_clashing _ (All-keep_self _ xs))

  module _ (row : A) (p : A → Bool) where
    -- A query for what clashes with the new row finds the new row alone, or nothing.
    pub keep-upsert_self :
        (xs : List A)
        → ((r : A) → p r ≡ true → clash row r ≡ true)
        → keep p (upsert clash row xs) ≡ (if p row then row ∷ [] else [])
    unfolding upsert keep
    keep-upsert_self xs same =
        let gone : keep p (keep (λ r. not (clash row r)) xs) ≡ [] = keep-eq-nil p _ (
          All-map _ _ _ (λ r h. ground (arith, same r))
            (All-keep_self (λ r. not (clash row r)) xs)) in
        rw (keep-append, gone)

    -- A query that the new row fails sees those of its old rows that do not clash with it.
    pub keep-upsert_apart :
        (xs : List A)
        → p row ≡ false
        → keep p (upsert clash row xs) ≡ keep (λ r. not (clash row r)) (keep p xs)
    unfolding upsert keep
    keep-upsert_apart xs here = rw (keep-append, here, append-nil) (keep_comm p _ xs)

  -- In a table without clashes, a query whose matches would clash selects one row or none.
  pub keep_unique :
      (p : A → Bool) (xs : List A)
      → IsUnique clash xs
      → ((a b : A) → p a ≡ true → p b ≡ true → clash a b ≡ true)
      → (keep p xs ≡ []) ⊎ ((r : A) × (keep p xs ≡ r ∷ []) × (p r ≡ true))
  unfolding keep
  keep_unique p [] h same = inl refl
  keep_unique p (x ∷ xs) (h, hs) same = elim (Bool-cases (p x)) [
    | inl e ↦
        let others : keep p xs ≡ [] =
          keep-eq-nil p xs (All-map _ _ xs (λ y apart. ground (arith, same x y e)) h) in
        inr (x, rw (e, others), e)
    | inr e ↦ rw e (keep_unique p xs hs same)
  ]
