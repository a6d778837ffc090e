-- ===== src/Nss/Passwd.antt =====
-- `fill_passwd_buf` of crates/nss_oidc: what the caller finds in its buffer.
use native.Mathlib.Decide.{dec_le}
use sssd_oidc.Prelude.{
  ℕ, ◌+◌, ◌≤◌, ◌<◌, ◌≡◌, refl, ◌∙◌, List, [], ◌∷◌, ◌++◌, none, some, length, length-append,
  append_assoc, arith,
}
use sssd_oidc.Text.{ascii}
use sssd_oidc.Model.{User}
use sssd_oidc.Nss.{try_again, success, erange}
use sssd_oidc.Nss.Buffer.{PasswdStruct, write_passwd, answer, fill_passwd_buf}
use sssd_oidc.Nss.Layout.{
  HasNoNul, c_string_at, c_string_at-append, IsWritten-nil, write_str_fits, write_str_small,
}

-- The bytes that a user's strings and their NULs take.
abbrev pub room : User → ℕ
room user = length user.name + length user.gecos + length user.home + length user.shell + 6

-- Strings that C can hold.
pub record IsCLike (user : User) : Type 0 where
  pub name : HasNoNul user.name
  pub gecos : HasNoNul user.gecos
  pub home : HasNoNul user.home
  pub shell : HasNoNul user.shell

-- What C reads through the struct.
pub record Reads (user : User) (pw : PasswdStruct) (bytes : List ℕ) : Type 0 where
  pub name : c_string_at pw.pw_name bytes ≡ some user.name
  pub passwd : c_string_at pw.pw_passwd bytes ≡ some (ascii "x")
  pub gecos : c_string_at pw.pw_gecos bytes ≡ some user.gecos
  pub dir : c_string_at pw.pw_dir bytes ≡ some user.home
  pub shell : c_string_at pw.pw_shell bytes ≡ some user.shell
  pub uid : pw.pw_uid ≡ user.uid
  pub gid : pw.pw_gid ≡ user.gid

module _ (user : User) (buflen : ℕ) (bytes : List ℕ) (lent : buflen ≤ length bytes)
    (clike : IsCLike user) where
  pub fill_passwd_buf-Reads :
      room user ≤ buflen
      → (pw : PasswdStruct) × (bytes' : List ℕ) × (fill_passwd_buf user buflen bytes
          ≡ record { status = success; errno = 0; result = some pw; bytes = bytes' })
        × Reads user pw bytes'
  unfolding fill_passwd_buf write_passwd answer
  fill_passwd_buf-Reads fits =
      let w0 = IsWritten-nil buflen bytes lent in
      let (b1, e1, w1) = write_str_fits buflen user.name [] _ w0 (omega arith) in
      let z1 : List ℕ = user.name ++ 0 ∷ [] in
      let n1 : length z1 ≡ length user.name + 1 = length-append user.name _ in
      let (b2, e2, w2) = write_str_fits buflen (ascii "x") z1 b1 w1 (omega arith) in
      let z2 : List ℕ = z1 ++ (ascii "x" ++ 0 ∷ []) in
      let n2 : length z2 ≡ length z1 + 2 = length-append z1 _ in
      let (b3, e3, w3) = write_str_fits buflen user.gecos z2 b2 w2 (omega arith) in
      let z3 : List ℕ = z2 ++ (user.gecos ++ 0 ∷ []) in
      let n3 : length z3 ≡ length z2 + (length user.gecos + 1) =
        length-append z2 _ ∙ omega (arith, length-append user.gecos (0 ∷ [])) in
      let (b4, e4, w4) = write_str_fits buflen user.home z3 b3 w3 (omega arith) in
      let z4 : List ℕ = z3 ++ (user.home ++ 0 ∷ []) in
      let n4 : length z4 ≡ length z3 + (length user.home + 1) =
        length-append z3 _ ∙ omega (arith, length-append user.home (0 ∷ [])) in
      let (b5, e5, w5) = write_str_fits buflen user.shell z4 b4 w4 (omega arith) in
      let p5 : b5.bytes ≡ (z4 ++ (user.shell ++ 0 ∷ [])) ++ w5.free = w5.parts in
      let p4 = p5 ∙ append_assoc z4 _ _ in
      let p3 = p4 ∙ append_assoc z3 _ _ in
      let p2 = p3 ∙ append_assoc z2 _ _ in
      let p1 = p2 ∙ append_assoc z1 _ _ in
      (
        _,
        b5.bytes,
        rw (e1, e2, e3, e4, e5) refl,
        record {
          name = c_string_at-append [] user.name _ _ clike.name p1;
          passwd = c_string_at-append z1 (ascii "x") _ _ (refl, tt) p2;
          gecos = c_string_at-append z2 user.gecos _ _ clike.gecos p3;
          dir = c_string_at-append z3 user.home _ _ clike.home p4;
          shell = c_string_at-append z4 user.shell _ _ clike.shell p5;
          uid = refl;
          gid = refl;
        },
      )

  -- In a buffer without room for the user's strings, their NULs and the password field,
  -- `fill_passwd_buf` answers TRYAGAIN with ERANGE, and leaves the struct unwritten.
  pub fill_passwd_buf_small :
      buflen < room user
      → (bytes' : List ℕ) × (fill_passwd_buf user buflen bytes
          ≡ record { status = try_again; errno = erange; result = none; bytes = bytes' })
  unfolding fill_passwd_buf write_passwd answer
  fill_passwd_buf_small small =
      let w0 = IsWritten-nil buflen bytes lent in
      elim (dec_le (length user.name + 1) buflen) [
        | no f ↦ (bytes, rw (write_str_small buflen user.name [] _ w0 (omega arith)) refl)
        | yes fits1 ↦
            let (b1, e1, w1) = write_str_fits buflen user.name [] _ w0 (omega arith) in
            let z1 : List ℕ = user.name ++ 0 ∷ [] in
            let n1 : length z1 ≡ length user.name + 1 = length-append user.name _ in
            elim (dec_le (length z1 + 2) buflen) [
              | no f ↦ (
                b1.bytes,
                rw (e1, write_str_small buflen (ascii "x") z1 b1 w1 (omega arith)) refl,
              )
              | yes fits2 ↦
                  let (b2, e2, w2) = write_str_fits buflen (ascii "x") z1 b1 w1 (omega arith) in
                  let z2 : List ℕ = z1 ++ (ascii "x" ++ 0 ∷ []) in
                  let n2 : length z2 ≡ length z1 + 2 = length-append z1 _ in
                  elim (dec_le (length z2 + length user.gecos + 1) buflen) [
                    | no f ↦ (
                      b2.bytes,
                      rw (e1, e2, write_str_small buflen user.gecos z2 b2 w2 (omega arith)) refl,
                    )
                    | yes fits3 ↦
                        let (b3, e3, w3) =
                          write_str_fits buflen user.gecos z2 b2 w2 (omega arith) in
                        let z3 : List ℕ = z2 ++ (user.gecos ++ 0 ∷ []) in
                        let n3 : length z3 ≡ length z2 + (length user.gecos + 1) =
                          length-append z2 _ ∙ omega (arith, length-append user.gecos (0 ∷ [])) in
                        elim (dec_le (length z3 + length user.home + 1) buflen) [
                          | no f ↦ (
                            b3.bytes,
                            rw (e1, e2, e3, write_str_small buflen user.home z3 b3 w3 (omega arith))
                                refl,
                          )
                          | yes fits4 ↦
                              let (b4, e4, w4) =
                                write_str_fits buflen user.home z3 b3 w3 (omega arith) in
                              let z4 : List ℕ = z3 ++ (user.home ++ 0 ∷ []) in
                              let n4 : length z4 ≡ length z3 + (length user.home + 1) =
                                length-append z3 _
                                ∙ omega (arith, length-append user.home (0 ∷ [])) in
                              (
                                b4.bytes,
                                rw
                                    (
                                      e1,
                                      e2,
                                      e3,
                                      e4,
                                      write_str_small buflen user.shell z4 b4 w4 (omega arith),
                                    )
                                    refl,
                              )
                        ]
                  ]
            ]
      ]
