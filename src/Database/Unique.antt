-- ===== src/Database/Unique.antt =====
-- The uniqueness constraints of the tables of src/cache.rs, kept by INSERT OR REPLACE.
use sssd_oidc.Prelude.{ℕ, ◌≡◌, arith}
use sssd_oidc.Text.{str_eq_symm}
use sssd_oidc.Model.{User}
use sssd_oidc.Database.Rows.{IsUnique, IsUnique-upsert}
use sssd_oidc.Database.{UserRow, GroupRow, Db, clash_users, clash_groups, run_replace_user}

pub clash_users_symm : (a b : UserRow) → clash_users a b ≡ clash_users b a
clash_users_symm a b = ground (arith, str_eq_symm a.external_id b.external_id)

pub clash_groups_symm : (a b : GroupRow) → clash_groups a b ≡ clash_groups b a
clash_groups_symm a b = ground (arith, str_eq_symm a.external_id b.external_id)

pub run_replace_user-IsUnique :
    (now : ℕ) (user : User) (db : Db)
    → IsUnique clash_users db.uid_cache
    → IsUnique clash_users (run_replace_user now user db).uid_cache
unfolding run_replace_user
run_replace_user-IsUnique now user db unique =
    IsUnique-upsert clash_users clash_users_symm _ db.uid_cache unique
