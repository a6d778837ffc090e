-- ===== src/Nss/GroupOrder.antt =====
-- The enumeration of groups in crates/nss_oidc: a caller reads the list in order, and loses no entry
-- to a buffer that was too small.
use sssd_oidc.Prelude.{
  ℕ, ◌+◌, ◌^◌, ◌≤◌, ◌<◌, ◌≡◌, refl, sym, ◌∙◌, List, [], ◌∷◌, ◌++◌, none, some, length,
  length-append, first, append_assoc, All,
}
use sssd_oidc.Model.{Group}
use sssd_oidc.Nss.{success, not_found, try_again, erange, refuse}
use sssd_oidc.Nss.Enumeration.{is_success}
use sssd_oidc.Nss.GroupBuffer.{GroupStruct, GroupEnum, group_at, getgrent_r}
use sssd_oidc.Nss.GroupLayout.{group_room, IsCLikeGroup, ReadsGroup}
use sssd_oidc.Nss.GroupReads.{fill_group_buf-Reads, fill_group_buf_small}

group_at-append : (done rest : List Group) → group_at (done ++ rest) (length done) ≡ first rest
group_at-append [] [] = refl
group_at-append [] (grp ∷ rest) = refl
group_at-append (d ∷ done) rest = group_at-append done rest

module _ (base buflen : ℕ) (bytes : List ℕ) where
  -- Calls from this state on give these groups, one each, and then NOTFOUND.
  pub data GivesGroups : List Group → GroupEnum → Type 0 where
    at_end :
        {e : GroupEnum}
        → getgrent_r base buflen bytes e ≡ (refuse not_found bytes, e)
        → GivesGroups [] e
    next :
        {e e' : GroupEnum} {grp : Group} {groups : List Group} (gr : GroupStruct) (bytes' : List ℕ)
        → getgrent_r base buflen bytes e
          ≡ (record { status = success; errno = 0; result = some gr; bytes = bytes' }, e')
        → ReadsGroup grp base gr bytes'
        → GivesGroups groups e'
        → GivesGroups (grp ∷ groups) e

  -- The group fits the buffer, in strings that C can hold.
  abbrev pub FitsGroup : Group → Type 0
  FitsGroup grp = (group_room grp ≤ buflen) × IsCLikeGroup grp

  module _ (lent : buflen ≤ length bytes) (nonnull : 0 < base)
      (addresses : base + buflen ≤ 2 ^ 64) where
    getgrent_r-from :
        (groups done rest : List Group)
        → groups ≡ done ++ rest
        → All FitsGroup rest
        → GivesGroups rest (some (groups, length done))
    unfolding getgrent_r is_success
    getgrent_r-from groups done [] split fit =
        let here : group_at groups (length done) ≡ none = rw split (group_at-append done []) in
        at_end (rw (here, getgrent_r) refl)
    getgrent_r-from groups done (grp ∷ rest) split ((roomy, clike), fit) =
        let (gr, bytes', filled, reads) =
          fill_group_buf-Reads grp base buflen bytes lent clike nonnull addresses roomy in
        let here : group_at groups (length done) ≡ some grp =
          rw split (group_at-append done (grp ∷ rest)) in
        let longer : length (done ++ grp ∷ []) ≡ length done + 1 = length-append done (grp ∷ []) in
        next {e' = some (groups, length done + 1)} gr bytes' (rw (here, getgrent_r, filled) refl)
          reads
          (rw (← longer) (
            getgrent_r-from groups (done ++ grp ∷ []) rest
              (split ∙ sym (append_assoc done (grp ∷ []) rest)) fit))

    -- From the start of an enumeration of groups that all fit the caller's buffer, whose addresses are
    -- below 2^64, calls of `getgrent_r` give each of them once, in order, as C reads them with their
    -- members through the struct, and then NOTFOUND.
    pub getgrent_r-GivesGroups :
        (groups : List Group) → All FitsGroup groups → GivesGroups groups (some (groups, 0))
    getgrent_r-GivesGroups groups fit = getgrent_r-from groups [] groups refl fit

    -- With a buffer that is too small for the next group, `getgrent_r` answers TRYAGAIN with ERANGE
    -- and stays at that group, so that the caller can call again with a larger buffer.
    pub getgrent_r_small :
        (groups done rest : List Group) (grp : Group)
        → groups ≡ done ++ (grp ∷ rest)
        → buflen < group_room grp
        → (bytes' : List ℕ) × (getgrent_r base buflen bytes (some (groups, length done)) ≡ (
          record { status = try_again; errno = erange; result = none; bytes = bytes' },
          some (groups, length done),
        ))
    unfolding getgrent_r is_success
    getgrent_r_small groups done rest grp split small =
        let (bytes', filled) = fill_group_buf_small grp base buflen bytes lent small in
        let here : group_at groups (length done) ≡ some grp =
          rw split (group_at-append done (grp ∷ rest)) in
        (bytes', rw (here, getgrent_r, filled) refl)
