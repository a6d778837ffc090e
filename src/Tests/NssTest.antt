-- ===== src/Tests/NssTest.antt =====
-- Runs of crates/nss_oidc.
use sssd_oidc.Prelude.{◌++◌, ℕ, ◌≡◌, refl, true, List, [], ◌∷◌, some, none, arith}
use sssd_oidc.Text.{ascii}
use sssd_oidc.Model.{User, Group}
use sssd_oidc.Nss.{try_again, erange}
use sssd_oidc.Nss.Buffer.{answer, write_str}
use sssd_oidc.Nss.GroupBuffer.{
  fill_group_buf, write_group, write_members, write_array, align, write_pointers, pointer_bytes,
}
use sssd_oidc.Nss.Passwd.{IsCLike}
use sssd_oidc.Nss.InitGroups.{Groups, add_groups}
use sssd_oidc.Nss.Members.{IsMerged, add_groups-IsMerged}
use sssd_oidc.Nss.Enumeration.{getpwent_r}
use sssd_oidc.Nss.Order.{getpwent_r_small}

abbrev short_user : User
short_user = record {
  external_id = [];
  name = ascii "a";
  uid = 7;
  gid = 8;
  gecos = [];
  home = ascii "h";
  shell = ascii "s";
  active = true;
}

abbrev memory : List ℕ
memory = 9 ∷ 9 ∷ 9 ∷ 9 ∷ 9 ∷ 9 ∷ 9 ∷ 9 ∷ 9 ∷ 9 ∷ []

short_user-IsCLike : IsCLike short_user
short_user-IsCLike = record { name = (refl, tt); gecos = tt; home = (refl, tt); shell = (refl, tt) }

abbrev array : Groups
array = record { groups = 5 ∷ 0 ∷ 0 ∷ []; start = 1 }

add_groups-IsMerged_example :
    IsMerged 8 3 (5 ∷ 8 ∷ 6 ∷ 6 ∷ []) array (add_groups 8 3 (5 ∷ 8 ∷ 6 ∷ 6 ∷ []) array)
add_groups-IsMerged_example =
    add_groups-IsMerged 8 3 (5 ∷ 8 ∷ 6 ∷ 6 ∷ []) array (omega arith) (omega arith)

getpwent_r_small_example :
    (bytes' : List ℕ) × (getpwent_r 8 memory (some (short_user ∷ short_user ∷ [], 1)) ≡ (
      record { status = try_again; errno = erange; result = none; bytes = bytes' },
      some (short_user ∷ short_user ∷ [], 1),
    ))
getpwent_r_small_example =
    getpwent_r_small 8 memory (short_user ∷ short_user ∷ []) (short_user ∷ []) [] short_user refl
      (omega arith) short_user-IsCLike (omega arith)

abbrev wheel : Group
wheel = record { external_id = []; name = ascii "w"; gid = 3; members = ascii "a" ∷ [] }

-- Six bytes of strings and two of padding, a pointer to "a" at 1000 + 4, and NULL.
wheel_filled :
    (fill_group_buf wheel 1000 24 (memory ++ memory ++ memory)).bytes
    ≡ 119 ∷ 0 ∷ 120 ∷ 0 ∷ 97 ∷ 0 ∷ 9 ∷ 9 ∷ 236 ∷ 3 ∷ 0 ∷ 0 ∷ 0 ∷ 0 ∷ 0 ∷ 0 ∷ 0 ∷ 0 ∷ 0 ∷ 0 ∷ 0 ∷ 0
      ∷ 0 ∷ 0 ∷ 9 ∷ 9 ∷ 9 ∷ 9 ∷ 9 ∷ 9 ∷ []
unfolding fill_group_buf write_group answer write_str write_members write_array align write_pointers
    pointer_bytes
wheel_filled = refl

abbrev pub long_memory : List ℕ
long_memory = memory ++ memory ++ memory
