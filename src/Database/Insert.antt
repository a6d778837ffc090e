-- ===== src/Database/Insert.antt =====
-- The INSERT of a member row in src/cache.rs: what it asks of the tables, and what a list of rows
-- without a match has.
use sssd_oidc.Prelude.{
  ◌≡◌, refl, Bool, true, false, List, [], ◌∷◌, ◌++◌, some, any, All, ◌||◌, arith,
}
use sssd_oidc.Text.{Str}
use sssd_oidc.Database.{GroupRow, MemberRow, Db, clash_members, belongs_to, run_insert_group_member}

-- The group of a member row is stored.
abbrev pub HasParent : List GroupRow → MemberRow → Type 0
HasParent groups m = any (λ (g : GroupRow). belongs_to g.external_id m) groups ≡ true

module _ {A : Type 0} where
  pub any-append : (p : A → Bool) (xs ys : List A) → any p (xs ++ ys) ≡ (any p xs || any p ys)
  unfolding any
  any-append p [] ys = refl
  any-append p (x ∷ xs) ys = ground (arith, any-append p xs ys)

  pub All-of_any : (p : A → Bool) (xs : List A) → any p xs ≡ false → All (λ x. p x ≡ false) xs
  unfolding any
  All-of_any p [] h = tt
  All-of_any p (x ∷ xs) h = (ground arith, All-of_any p xs (ground arith))

-- An accepted member row is new, and its group is stored where foreign keys are enforced.
pub run_insert_group_member-eq-some :
    (foreign_keys : Bool) (external_id member : Str) (db db' : Db)
    → run_insert_group_member foreign_keys external_id member db ≡ some db'
    → let row : MemberRow = record { group_external_id = external_id; member_name = member } in
      (any (clash_members row) db.group_members ≡ false)
      × (foreign_keys ≡ true → HasParent db.gid_cache row)
      × (db' ≡ record db { group_members = db.group_members ++ row ∷ [] })
unfolding run_insert_group_member
run_insert_group_member-eq-some true external_id member db db' h =
    (ground arith, (λ e. ground arith), ground arith)
run_insert_group_member-eq-some false external_id member db db' h =
    (ground arith, (λ e. cc), ground arith)
