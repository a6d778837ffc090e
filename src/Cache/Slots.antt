-- ===== src/Cache/Slots.antt =====
-- Where the probing of src/mapping.rs puts the rows of a table of src/cache.rs, users or groups.
use mathlib.Core.Option.{some-injective}
use sssd_oidc.Prelude.{
  ℕ, ◌≡◌, refl, sym, subst, ap, ◌∙◌, Bool, true, false, not, ◌||◌, List, [], ◌∷◌, Option, none,
  some, ◌==◌, arith, inl, inr, Bool-cases, Option-cases, ◌↔◌, ◌⊎◌, keep, first, All, All-map₂,
  All-keep, All-keep_self, All-append,
}
use sssd_oidc.Text.{Str, str_eq, str_eq_iff, str_eq_refl}
use sssd_oidc.Outcome.{Outcome, ok}
use sssd_oidc.Mapping.Probing.{IsFirst, Accepts}
use sssd_oidc.Mapping.First.{IsFirst-unique, IsFirst-map}
use sssd_oidc.Database.Rows.{upsert, keep-upsert_self, keep-upsert_apart, keep_unique, IsUnique}
use sssd_oidc.Cache.State.{CacheError}

pub first-All :
    {A : Type 0} (P : A → Type 0) (xs : List A) (x : A) → All P xs → first xs ≡ some x → P x
first-All P [] x h e = cc
first-All P (y ∷ ys) x (h, hs) e = let same : y ≡ x = cc in subst P same h

module _ {Row : Type 0} (external_id : Row → Str) (number : Row → ℕ) where
  -- PRIMARY KEY (external_id), and the UNIQUE number
  abbrev pub clash : Row → Row → Bool
  clash a b = str_eq (external_id a) (external_id b) || number a == number b

  abbrev pub holds : ℕ → Row → Bool
  holds n r = number r == n

  unfoldable pub held_by : List Row → ℕ → Option Row
  held_by rows n = first (keep (holds n) rows)

  -- What the owner's query answers, when the reads work.
  abbrev pub answer : Str → Option Row → Option Bool
  answer id held = elim held [ some r ↦ some (str_eq (external_id r) id) | none ↦ none ]

  abbrev pub tells : List Row → Str → ℕ → Outcome CacheError (Option Bool)
  tells rows id n = ok (answer id (held_by rows n))

  -- The rows that hold a number are one or none.
  pub holding :
      (rows : List Row) (n : ℕ)
      → IsUnique clash rows
      → (keep (holds n) rows ≡ [])
        ⊎ ((r : Row) × (keep (holds n) rows ≡ r ∷ []) × (holds n r ≡ true))
  holding rows n unique = keep_unique clash (holds n) rows unique (λ a b h k. ground arith)

  module _ (murmur3_32 : Str → ℕ → Option ℕ) (range_min range_size : ℕ) where
    -- The row lies at the first slot of its external id that no other external id holds.
    abbrev pub IsOwnSlot : List Row → Row → Type 0
    IsOwnSlot rows r =
        (hash : ℕ) × (murmur3_32 (external_id r) 0 ≡ some hash)
        × IsFirst range_min range_size hash (tells rows (external_id r)) 0 (number r)

    unfoldable pub AreAtSlots : List Row → Type 0
    AreAtSlots rows = All (IsOwnSlot rows) rows

    held_by-IsOwnSlot :
        (rows : List Row) (n : ℕ) (r : Row)
        → AreAtSlots rows
        → held_by rows n ≡ some r
        → IsOwnSlot rows r × (number r ≡ n)
    unfolding AreAtSlots held_by
    held_by-IsOwnSlot rows n r placed h = (
      first-All (IsOwnSlot rows) _ r (All-keep _ (holds n) rows placed) h,
      (let here : holds n r ≡ true =
            first-All (λ x. holds n x ≡ true) _ r (All-keep_self (holds n) rows) h in
          ground arith),
    )

    -- Rows of one external id lie at one number.
    pub one_number :
        (rows : List Row) (n n' : ℕ) (r r' : Row)
        → AreAtSlots rows
        → held_by rows n ≡ some r
        → held_by rows n' ≡ some r'
        → external_id r ≡ external_id r'
        → n ≡ n'
    one_number rows n n' r r' placed h h' same =
        let ((hash, hashed, f), e) = held_by-IsOwnSlot rows n r placed h in
        let ((hash', hashed', f'), e') = held_by-IsOwnSlot rows n' r' placed h' in
        let one : hash ≡ hash' = cc (hashed, hashed', same) in
        let g : IsFirst range_min range_size hash (tells rows (external_id r)) 0 (number r') =
          rw (one, same) f' in
        sym e ∙ IsFirst-unique (number r) (number r') f g ∙ e'

    tells-row :
        (rows : List Row) (id : Str) (n : ℕ)
        → tells rows id n ≡ ok (some true)
        → (r : Row) × (held_by rows n ≡ some r) × (external_id r ≡ id)
    tells-row rows id n h = elim (Option-cases (held_by rows n)) [
      | inl e ↦ cc (rw e at h)
      | inr (r, e) ↦
          let own : str_eq (external_id r) id ≡ true = cc (rw e at h) in
          (r, e, (str_eq_iff (external_id r) id).0 own)
    ]

    -- Two external ids that are at their numbers.
    pub tells_iff :
        (rows : List Row) (id id' : Str) (n n' : ℕ)
        → AreAtSlots rows
        → tells rows id n ≡ ok (some true)
        → tells rows id' n' ≡ ok (some true)
        → (id ≡ id') ↔ (n ≡ n')
    tells_iff rows id id' n n' placed h h' =
        let (r, e, own) = tells-row rows id n h in
        let (r', e', own') = tells-row rows id' n' h' in
        (
          (λ same. one_number rows n n' r r' placed e e' (own ∙ same ∙ sym own')),
          (λ same.
              let one : r ≡ r' = some-injective _ _ (sym e ∙ ap (held_by rows) same ∙ e') in
              sym own ∙ ap external_id one ∙ own'),
        )

    module _ (row : Row) (rows : List Row) (unique : IsUnique clash rows) (placed : AreAtSlots rows)
        (hash : ℕ) (hashed : murmur3_32 (external_id row) 0 ≡ some hash)
        (chosen : IsFirst range_min range_size hash
          (tells rows (external_id row))
          0
          (number row)) where
      abbrev after : List Row
      after = upsert clash row rows

      -- The external id had no other number.
      not_moved :
          (n : ℕ) (r : Row)
          → held_by rows n ≡ some r
          → str_eq (external_id row) (external_id r) ≡ true
          → n ≡ number row
      not_moved n r h same =
          let ((hash', hashed', f), e) = held_by-IsOwnSlot rows n r placed h in
          let id_same = (str_eq_iff (external_id row) (external_id r)).0 same in
          let one : hash' ≡ hash = cc (hashed, hashed', id_same) in
          let g : IsFirst range_min range_size hash (tells rows (external_id row)) 0 (number r) =
            rw (← one, id_same) f in
          sym e ∙ IsFirst-unique (number r) (number row) g chosen

      held_by_own : held_by after (number row) ≡ some row
      unfolding held_by
      held_by_own =
          let alone : keep (holds (number row)) (upsert clash row rows) ≡ row ∷ [] =
            keep-upsert_self clash row (holds (number row)) rows (λ r h. ground arith)
            ∙ ground arith in
          rw alone

      held_by_other : (n : ℕ) → (number row == n) ≡ false → held_by after n ≡ held_by rows n
      unfolding held_by
      held_by_other n other =
          rw (keep-upsert_apart clash row (holds n) rows other) (elim (holding rows n unique) [
            | inl e ↦ rw e (unfold keep in refl)
            | inr (r, e, here) ↦ elim (Bool-cases (str_eq (external_id row) (external_id r))) [
              | inl same ↦ let moved = not_moved n r (ap first e) same in absurd (ground arith)
              | inr apart ↦ rw e (unfold keep in ground arith)
            ]
          ])

      -- What the table tells of a number that a row holds stays.
      pub tells-after :
          (id : Str) (n : ℕ) (mine : Bool)
          → tells rows id n ≡ ok (some mine)
          → tells after id n ≡ ok (some mine)
      tells-after id n mine h = elim (Bool-cases (number row == n)) [
        | inr other ↦ ap (λ o. ok (answer id o)) (held_by_other n other) ∙ h
        | inl same ↦
            let e : number row ≡ n = ground arith in
            subst (λ c. tells after id c ≡ ok (some mine)) e
              (ap (λ o. ok (answer id o)) held_by_own
                ∙ ap (λ b. ok (some b))
                    (same_answer id mine (held_by rows (number row)) chosen.accepted
                      (subst (λ c. tells rows id c ≡ ok (some mine)) (sym e) h)))
      ]
        where
          same_answer :
              (id : Str) (mine : Bool) (held : Option Row)
              → Accepts {E = CacheError} (ok (answer (external_id row) held))
              → ◌≡◌ {A = Outcome CacheError (Option Bool)} (ok (answer id held)) (ok (some mine))
              → str_eq (external_id row) id ≡ mine
          same_answer id mine none a h = cc
          same_answer id mine (some r) (inl e) h = cc
          same_answer id mine (some r) (inr e) h =
              let own : str_eq (external_id r) (external_id row) ≡ true = cc in
              let id_same = (str_eq_iff (external_id r) (external_id row)).0 own in
              let mine_same : str_eq (external_id r) id ≡ mine = cc in rw (← id_same) mine_same

      -- The external id of the row is at its number.
      pub tells-own : tells after (external_id row) (number row) ≡ ok (some true)
      tells-own =
          ap (λ o. ok (answer (external_id row) o)) held_by_own
          ∙ ap (λ b. ok (some b)) (str_eq_refl (external_id row))

      slot-after : (r : Row) → clash row r ≡ false → IsOwnSlot rows r → IsOwnSlot after r
      slot-after r apart (hash', hashed', f) =
          let other : (number row == number r) ≡ false = ground arith in
          (
            hash',
            hashed',
            IsFirst-map (tells after (external_id r)) (number r) f
                (subst Accepts
                  (sym (ap (λ o. ok (answer (external_id r) o)) (held_by_other (number r) other)))
                  f.accepted)
                (λ c. tells-after (external_id r) c false),
          )

      row-IsOwnSlot : IsOwnSlot after row
      row-IsOwnSlot = (
        hash,
        hashed,
        IsFirst-map (tells after (external_id row)) (number row) chosen (inr tells-own)
            (λ c. tells-after (external_id row) c false),
      )

      -- Writing the row where the probing puts it leaves every row at its slot.
      pub upsert-AreAtSlots : AreAtSlots (upsert clash row rows)
      unfolding AreAtSlots upsert
      upsert-AreAtSlots =
          All-append (IsOwnSlot after) (keep (λ r. not (clash row r)) rows) (row ∷ [])
            (All-map₂ (λ r. not (clash row r) ≡ true) (IsOwnSlot rows) (IsOwnSlot after) _
              (λ r apart slot. slot-after r (ground arith) slot)
              (All-keep_self (λ r. not (clash row r)) rows)
              (All-keep (IsOwnSlot rows) (λ r. not (clash row r)) rows placed))
            (row-IsOwnSlot, tt)
