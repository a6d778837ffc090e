-- ===== src/Nss/GroupReads.antt =====
-- `fill_group_buf` of crates/nss_oidc: its answers, and what C reads through the struct.
use native.Mathlib.Decide.{dec_le}
use sssd_oidc.Prelude.{
  ℕ, ◌+◌, ◌*◌, ◌^◌, ◌≤◌, ◌<◌, ◌≡◌, refl, ◌∙◌, List, [], ◌∷◌, ◌++◌, none, some, length,
  length-append, append_assoc, arith,
}
use sssd_oidc.Text.{ascii}
use sssd_oidc.Model.{Group}
use sssd_oidc.Nss.{try_again, success, erange}
use sssd_oidc.Nss.Buffer.{answer}
use sssd_oidc.Nss.Layout.{c_string_at-append, IsWritten-nil, write_str_fits, write_str_small}
use sssd_oidc.Nss.GroupBuffer.{GroupStruct, pointer_size, align, write_group, fill_group_buf}
use sssd_oidc.Nss.Pointers.{blocks, offsets, ReadsStrings-encode}
use sssd_oidc.Nss.GroupLayout.{
  strings_room, group_room, IsCLikeGroup, ReadsGroup, length-offsets, align-bounds,
  write_members_fits, write_members_small, write_array_fits, write_array_small,
}

module _ (grp : Group) (base buflen : ℕ) (bytes : List ℕ) (lent : buflen ≤ length bytes) where
  pub fill_group_buf-Reads :
      IsCLikeGroup grp
      → 0 < base
      → base + buflen ≤ 2 ^ 64
      → group_room grp ≤ buflen
      → (gr : GroupStruct) × (bytes' : List ℕ) × (fill_group_buf grp base buflen bytes
          ≡ record { status = success; errno = 0; result = some gr; bytes = bytes' })
        × ReadsGroup grp base gr bytes'
  unfolding fill_group_buf write_group answer
  fill_group_buf-Reads clike nonnull addresses fits =
      let below = align-bounds (strings_room grp) in
      let w0 = IsWritten-nil buflen bytes lent in
      let (b1, e1, w1) = write_str_fits buflen grp.name [] _ w0 (omega arith) in
      let z1 : List ℕ = grp.name ++ 0 ∷ [] in
      let n1 : length z1 ≡ length grp.name + 1 = length-append grp.name _ in
      let (b2, e2, w2) = write_str_fits buflen (ascii "x") z1 b1 w1 (omega arith) in
      let z2 : List ℕ = z1 ++ (ascii "x" ++ 0 ∷ []) in
      let n2 : length z2 ≡ length z1 + 2 = length-append z1 _ in
      let (b3, e3, w3) = write_members_fits buflen grp.members z2 b2 w2 (omega arith) in
      let z3 : List ℕ = z2 ++ blocks grp.members in
      let n3 : length z3 ≡ strings_room grp = length-append z2 _ ∙ omega arith in
      let pointers = offsets (length z2) grp.members in
      let count = length-offsets (length z2) grp.members in
      let roomy : align (length z3) + (length pointers + 1) * pointer_size ≤ buflen =
        rw (n3, count) fits in
      let (b4, before, rest, free, e4, kept, array) =
        write_array_fits base buflen z3 b3 w3 pointers roomy in
      let p2 : b4.bytes ≡ (z1 ++ (ascii "x" ++ 0 ∷ [])) ++ (blocks grp.members ++ rest) =
        kept ∙ append_assoc z2 (blocks grp.members) rest in
      let p1 = p2 ∙ append_assoc z1 _ _ in
      (
        _,
        b4.bytes,
        rw (e1, e2, e3, e4) refl,
        record {
          name = c_string_at-append [] grp.name _ _ clike.name p1;
          passwd = c_string_at-append z1 (ascii "x") _ _ (refl, tt) p2;
          gid = refl;
          members =
              ReadsStrings-encode base buflen grp.members z2 before rest free b4.bytes nonnull
                addresses (omega arith) clike.members kept array;
        },
      )

  -- In a buffer without that room `fill_group_buf` answers TRYAGAIN with ERANGE, and leaves the struct
  -- unwritten.
  pub fill_group_buf_small :
      buflen < group_room grp
      → (bytes' : List ℕ) × (fill_group_buf grp base buflen bytes
          ≡ record { status = try_again; errno = erange; result = none; bytes = bytes' })
  unfolding fill_group_buf write_group answer
  fill_group_buf_small small =
      let w0 = IsWritten-nil buflen bytes lent in
      elim (dec_le (length grp.name + 1) buflen) [
        | no f ↦ (bytes, rw (write_str_small buflen grp.name [] _ w0 (omega arith)) refl)
        | yes fits1 ↦
            let (b1, e1, w1) = write_str_fits buflen grp.name [] _ w0 (omega arith) in
            let z1 : List ℕ = grp.name ++ 0 ∷ [] in
            let n1 : length z1 ≡ length grp.name + 1 = length-append grp.name _ in
            elim (dec_le (length z1 + 2) buflen) [
              | no f ↦ (
                b1.bytes,
                rw (e1, write_str_small buflen (ascii "x") z1 b1 w1 (omega arith)) refl,
              )
              | yes fits2 ↦
                  let (b2, e2, w2) = write_str_fits buflen (ascii "x") z1 b1 w1 (omega arith) in
                  let z2 : List ℕ = z1 ++ (ascii "x" ++ 0 ∷ []) in
                  let n2 : length z2 ≡ length z1 + 2 = length-append z1 _ in
                  elim (dec_le (length z2 + length (blocks grp.members)) buflen) [
                    | no f ↦
                        let (b3, e3) =
                          write_members_small buflen grp.members z2 b2 w2 (omega arith)
                            (omega arith) in
                        (b3.bytes, rw (e1, e2, e3) refl)
                    | yes fits3 ↦
                        let (b3, e3, w3) =
                          write_members_fits buflen grp.members z2 b2 w2 (omega arith) in
                        let z3 : List ℕ = z2 ++ blocks grp.members in
                        let n3 : length z3 ≡ strings_room grp = length-append z2 _ ∙ omega arith in
                        let pointers = offsets (length z2) grp.members in
                        let (b4, e4) =
                          write_array_small base buflen z3 b3 w3 pointers
                            (rw (n3, length-offsets (length z2) grp.members) small) in
                        (b4.bytes, rw (e1, e2, e3, e4) refl)
                  ]
            ]
      ]
