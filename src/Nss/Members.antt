-- ===== src/Nss/Members.antt =====
-- The loop of `_nss_oidc_initgroups_dyn` in crates/nss_oidc: what it adds to the caller's groups.
use native.Mathlib.Nat.{suc-add}
use sssd_oidc.Prelude.{
  ℕ, zero, suc, ◌+◌, ◌≤◌, ◌<◌, ◌≡◌, refl, sym, ap, ◌∙◌, true, false, List, [], ◌∷◌, ◌++◌, leb, ◌==◌,
  any, take, length, append_assoc, append-nil, All, ◌⊎◌, inl, inr, Bool-cases, arith,
}
use sssd_oidc.Database.Rows.{IsUnique, IsUnique-append}
use sssd_oidc.Database.Insert.{any-append, All-of_any}
use sssd_oidc.Nss.{try_again, success}
use sssd_oidc.Nss.InitGroups.{Groups, GroupsAnswer, push, set_at, add_groups}

-- The entries in use.
abbrev pub entries : Groups → List ℕ
entries filled = take filled.start filled.groups

set_at-length :
    (i gid : ℕ) (groups : List ℕ) → i < length groups → length (set_at i gid groups) ≡ length groups
set_at-length zero gid [] h = absurd (omega arith)
set_at-length zero gid (x ∷ groups) h = refl
set_at-length (suc i) gid [] h = absurd (omega arith)
set_at-length (suc i) gid (x ∷ groups) h =
    rw (suc-add) (ap suc (set_at-length i gid groups (omega arith)))

take-set_at :
    (i gid : ℕ) (groups : List ℕ)
    → i < length groups
    → take (suc i) (set_at i gid groups) ≡ take i groups ++ gid ∷ []
take-set_at zero gid [] h = absurd (omega arith)
take-set_at zero gid (x ∷ groups) h = refl
take-set_at (suc i) gid [] h = absurd (omega arith)
take-set_at (suc i) gid (x ∷ groups) h =
    rw (suc-add) (ap (λ t. x ∷ t) (take-set_at i gid groups (omega arith)))

-- The GID is the primary group's, or among the entries.
abbrev pub IsCovered : (group : ℕ) → List ℕ → ℕ → Type 0
IsCovered group present gid = (gid ≡ group) ⊎ (any (λ g. g == gid) present ≡ true)

-- The answer extends what was there by GIDs other than the primary group's, without new repetitions,
-- within the size; a success covers every GID, and the array is full otherwise.
pub record IsMerged (group cur_size : ℕ) (gids : List ℕ) (filled : Groups) (answer : GroupsAnswer)
    : Type 0 where
  pub new : List ℕ
  pub extends : entries answer.filled ≡ entries filled ++ new
  pub secondary : All (λ gid. (gid == group) ≡ false) new
  pub distinct : IsUnique ◌==◌ (entries filled) → IsUnique ◌==◌ (entries answer.filled)
  pub bounded : answer.filled.start ≤ cur_size
  pub covers : answer.status ≡ success → All (IsCovered group (entries answer.filled)) gids
  pub full : answer.status ≡ try_again → answer.filled.start ≡ cur_size

module _ (group cur_size : ℕ) where
  IsMerged-skip :
      (gid : ℕ) (gids : List ℕ) (filled : Groups) (answer : GroupsAnswer)
      → IsCovered group (entries filled) gid
      → IsMerged group cur_size gids filled answer
      → IsMerged group cur_size (gid ∷ gids) filled answer
  IsMerged-skip gid gids filled answer covered m = record {
    new = m.new;
    extends = m.extends;
    secondary = m.secondary;
    distinct = m.distinct;
    bounded = m.bounded;
    covers = λ s. (
      (elim covered [ inl e ↦ inl e | inr e ↦ inr (rw (m.extends, any-append, e) refl) ]),
      m.covers s,
    );
    full = m.full;
  }

  IsMerged-push :
      (gid : ℕ) (gids : List ℕ) (filled : Groups) (answer : GroupsAnswer)
      → filled.start < length filled.groups
      → (gid == group) ≡ false
      → any (λ g. g == gid) (entries filled) ≡ false
      → IsMerged group cur_size gids (push gid filled) answer
      → IsMerged group cur_size (gid ∷ gids) filled answer
  IsMerged-push gid gids filled answer room other absent m =
      let next : filled.start + 1 ≡ suc filled.start = omega arith in
      let pushed : entries (push gid filled) ≡ entries filled ++ gid ∷ [] =
        ap (λ k. take k (set_at filled.start gid filled.groups)) next
        ∙ take-set_at filled.start gid filled.groups room in
      let longer : entries answer.filled ≡ entries filled ++ (gid ∷ m.new) =
        m.extends ∙ ap (λ l. l ++ m.new) pushed ∙ append_assoc (entries filled) (gid ∷ []) m.new in
      record {
        new = gid ∷ m.new;
        extends = longer;
        secondary = (other, m.secondary);
        distinct = λ u.
            m.distinct
              (rw pushed (IsUnique-append ◌==◌ (entries filled) gid u (All-of_any _ _ absent)));
        bounded = m.bounded;
        covers =
            λ s. (inr (rw (longer, any-append, absent) (unfold any in ground arith)), m.covers s);
        full = m.full;
      }

  -- If the array has `cur_size` entries, the loop of `initgroups_dyn` keeps those in use and adds, each
  -- once, GIDs other than the primary group's, within the size; it succeeds only if every GID is then
  -- present or primary, and answers TRYAGAIN only if the array is full.
  pub add_groups-IsMerged :
      (gids : List ℕ) (filled : Groups)
      → filled.start ≤ cur_size
      → cur_size ≤ length filled.groups
      → IsMerged group cur_size gids filled (add_groups group cur_size gids filled)
  unfolding add_groups
  add_groups-IsMerged [] filled used lent = record {
    new = [];
    extends = sym (append-nil _);
    secondary = tt;
    distinct = λ u. u;
    bounded = used;
    covers = λ s. tt;
    full = λ s. cc;
  }
  add_groups-IsMerged (gid ∷ gids) filled used lent = elim (Bool-cases (gid == group)) [
    | inl e ↦ rw e (
        IsMerged-skip gid gids filled _ (inl (ground arith))
          (add_groups-IsMerged gids filled used lent))
    | inr other ↦ elim (Bool-cases (any (λ g. g == gid) (entries filled))) [
      | inl e ↦
          rw (other, e)
            (IsMerged-skip gid gids filled _ (inr e) (add_groups-IsMerged gids filled used lent))
      | inr absent ↦ elim (Bool-cases (leb cur_size filled.start)) [
        | inl e ↦
            rw (other, absent, e)
              (record {
                new = [];
                extends = sym (append-nil _);
                secondary = tt;
                distinct = λ u. u;
                bounded = used;
                covers = λ s. cc;
                full = λ s. ground arith;
              })
        | inr room ↦
            let free : filled.start < length filled.groups = ground arith in
            rw (other, absent, room)
              (IsMerged-push gid gids filled _ free other absent (
                add_groups-IsMerged gids (push gid filled) (ground arith)
                  (omega (arith, set_at-length filled.start gid filled.groups free))))
      ]
    ]
  ]
