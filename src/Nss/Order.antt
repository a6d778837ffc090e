-- ===== src/Nss/Order.antt =====
-- The enumeration of users in crates/nss_oidc: a caller reads the list in order, and loses no entry
-- to a buffer that was too small.
use sssd_oidc.Prelude.{
  ℕ, ◌+◌, ◌≤◌, ◌<◌, ◌≡◌, refl, sym, ap, ◌∙◌, List, [], ◌∷◌, ◌++◌, none, some, length, length-append,
  drop, first, append_assoc, All,
}
use native.Mathlib.Nat.{add-zero}
use sssd_oidc.Model.{User}
use sssd_oidc.Nss.{success, not_found, try_again, erange, refuse}
use sssd_oidc.Nss.Buffer.{PasswdStruct}
use sssd_oidc.Nss.Layout.{drop-length_append}
use sssd_oidc.Nss.Passwd.{room, IsCLike, Reads, fill_passwd_buf-Reads, fill_passwd_buf_small}
use sssd_oidc.Nss.Enumeration.{UserEnum, entry_at, is_success, getpwent_r}

entry_at-append : (done rest : List User) → entry_at (done ++ rest) (length done) ≡ first rest
unfolding entry_at
entry_at-append done rest = ap first (
    ap (λ k. drop k (done ++ rest)) (sym (add-zero (length done))) ∙ drop-length_append done rest 0)

module _ (buflen : ℕ) (bytes : List ℕ) where
  -- Calls from this state on give these users, one each, and then NOTFOUND.
  pub data Gives : List User → UserEnum → Type 0 where
    at_end : {e : UserEnum} → getpwent_r buflen bytes e ≡ (refuse not_found bytes, e) → Gives [] e
    next :
        {e e' : UserEnum} {user : User} {users : List User} (pw : PasswdStruct) (bytes' : List ℕ)
        → getpwent_r buflen bytes e
          ≡ (record { status = success; errno = 0; result = some pw; bytes = bytes' }, e')
        → Reads user pw bytes'
        → Gives users e'
        → Gives (user ∷ users) e

  -- The user fits the buffer, in strings that C can hold.
  abbrev pub Fits : User → Type 0
  Fits user = (room user ≤ buflen) × IsCLike user

  getpwent_r-from :
      (lent : buflen ≤ length bytes) (users done rest : List User)
      → users ≡ done ++ rest
      → All Fits rest
      → Gives rest (some (users, length done))
  unfolding getpwent_r is_success
  getpwent_r-from lent users done [] split fit =
      let here : entry_at users (length done) ≡ none = rw split (entry_at-append done []) in
      at_end (rw (here, getpwent_r) refl)
  getpwent_r-from lent users done (user ∷ rest) split ((roomy, clike), fit) =
      let (pw, bytes', filled, reads) = fill_passwd_buf-Reads user buflen bytes lent clike roomy in
      let here : entry_at users (length done) ≡ some user =
        rw split (entry_at-append done (user ∷ rest)) in
      let longer : length (done ++ user ∷ []) ≡ length done + 1 = length-append done (user ∷ []) in
      next {e' = some (users, length done + 1)} pw bytes' (rw (here, getpwent_r, filled) refl) reads
        (rw (← longer) (
          getpwent_r-from lent users (done ++ user ∷ []) rest
            (split ∙ sym (append_assoc done (user ∷ []) rest)) fit))

  -- From the start of an enumeration of users that all fit the caller's buffer, calls of `getpwent_r` give
  -- each of them once, in order, as C reads them through the struct, and then NOTFOUND.
  pub getpwent_r-Gives :
      (users : List User) → buflen ≤ length bytes → All Fits users → Gives users (some (users, 0))
  getpwent_r-Gives users lent fit = getpwent_r-from lent users [] users refl fit

  -- With a buffer that is too small for the next user, `getpwent_r` answers TRYAGAIN with ERANGE and
  -- stays at that user, so that the caller can call again with a larger buffer.
  pub getpwent_r_small :
      (users done rest : List User) (user : User)
      → users ≡ done ++ (user ∷ rest)
      → buflen ≤ length bytes
      → IsCLike user
      → buflen < room user
      → (bytes' : List ℕ) × (getpwent_r buflen bytes (some (users, length done)) ≡ (
        record { status = try_again; errno = erange; result = none; bytes = bytes' },
        some (users, length done),
      ))
  unfolding getpwent_r is_success
  getpwent_r_small users done rest user split lent clike small =
      let (bytes', filled) = fill_passwd_buf_small user buflen bytes lent clike small in
      let here : entry_at users (length done) ≡ some user =
        rw split (entry_at-append done (user ∷ rest)) in
      (bytes', rw (here, getpwent_r, filled) refl)
