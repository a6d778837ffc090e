-- ===== src/Nss/GroupLayout.antt =====
-- `fill_group_buf` of crates/nss_oidc: what the caller finds in its buffer.
use native.Mathlib.Decide.{dec_le}
use sssd_oidc.Prelude.{
  ℕ, suc, ◌+◌, ◌*◌, ◌-◌, ◌≤◌, ◌<◌, ◌≡◌, refl, sym, ap, ◌∙◌, subst, true, false, List, [], ◌∷◌, ◌++◌,
  some, ltb, length, length-append, length-drop, take, drop, take-append-drop, append_assoc,
  append-nil, All, arith,
}
use sssd_oidc.Text.{Str, ascii}
use sssd_oidc.Outcome.{ok, err}
use sssd_oidc.Model.{Group}
use sssd_oidc.Nss.Buffer.{Buffer, too_small}
use sssd_oidc.Nss.Layout.{HasNoNul, c_string_at, IsWritten, write_str_fits, write_str_small}
use sssd_oidc.Nss.GroupBuffer.{
  GroupStruct, pointer_size, align, write_members, write_pointers, write_array,
}
use sssd_oidc.Nss.Pointers.{ReadsStrings, blocks, offsets, encode, write_pointers-encode}

-- The bytes that a group's strings and their NULs take, and all that it takes.
abbrev pub strings_room : Group → ℕ
strings_room grp = length grp.name + 3 + length (blocks grp.members)

abbrev pub group_room : Group → ℕ
group_room grp = align (strings_room grp) + (length grp.members + 1) * pointer_size

-- Strings that C can hold.
pub record IsCLikeGroup (grp : Group) : Type 0 where
  pub name : HasNoNul grp.name
  pub members : All HasNoNul grp.members

-- What C reads through the struct.
pub record ReadsGroup (grp : Group) (base : ℕ) (gr : GroupStruct) (bytes : List ℕ) : Type 0 where
  pub name : c_string_at gr.gr_name bytes ≡ some grp.name
  pub passwd : c_string_at gr.gr_passwd bytes ≡ some (ascii "x")
  pub gid : gr.gr_gid ≡ grp.gid
  pub members : ReadsStrings base gr.gr_mem bytes grp.members

pub length-offsets :
    (start : ℕ) (strings : List Str) → length (offsets start strings) ≡ length strings
unfolding offsets
length-offsets start [] = refl
length-offsets start (s ∷ strings) = ap suc (length-offsets (start + (length s + 1)) strings)

pub write_members_fits :
    (buflen : ℕ) (members : List Str) (bytes : List ℕ) (buffer : Buffer)
    → IsWritten buflen bytes buffer
    → length bytes + length (blocks members) ≤ buflen
    → (buffer' : Buffer) × (write_members buflen members buffer
        ≡ (ok (offsets (length bytes) members), buffer'))
      × IsWritten buflen (bytes ++ blocks members) buffer'
unfolding write_members blocks offsets
write_members_fits buflen [] bytes buffer written h =
    (buffer, refl, subst (λ z. IsWritten buflen z buffer) (sym (append-nil bytes)) written)
write_members_fits buflen (m ∷ members) bytes buffer written h =
    let block : List ℕ = m ++ 0 ∷ [] in
    let size : length block ≡ length m + 1 = length-append m (0 ∷ []) in
    let total : length (block ++ blocks members) ≡ length block + length (blocks members) =
      length-append block (blocks members) in
    let placed : length (bytes ++ block) ≡ length bytes + (length m + 1) =
      length-append bytes block ∙ ap (λ n. length bytes + n) size in
    let (b₁, e₁, w₁) = write_str_fits buflen m bytes buffer written (omega arith) in
    let (b₂, e₂, w₂) = write_members_fits buflen members (bytes ++ block) b₁ w₁ (omega arith) in
    (
      b₂,
      rw (e₁, e₂, placed) refl,
      subst (λ z. IsWritten buflen z b₂) (append_assoc bytes block (blocks members)) w₂,
    )

pub write_members_small :
    (buflen : ℕ) (members : List Str) (bytes : List ℕ) (buffer : Buffer)
    → IsWritten buflen bytes buffer
    → length bytes ≤ buflen
    → buflen < length bytes + length (blocks members)
    → (buffer' : Buffer) × (write_members buflen members buffer ≡ (err too_small, buffer'))
unfolding write_members blocks
write_members_small buflen [] bytes buffer written start h = absurd (ground arith)
write_members_small buflen (m ∷ members) bytes buffer written start h =
    let block : List ℕ = m ++ 0 ∷ [] in
    let size : length block ≡ length m + 1 = length-append m (0 ∷ []) in
    let total : length (block ++ blocks members) ≡ length block + length (blocks members) =
      length-append block (blocks members) in
    let placed : length (bytes ++ block) ≡ length bytes + (length m + 1) =
      length-append bytes block ∙ ap (λ n. length bytes + n) size in
    elim (dec_le (length bytes + length m + 1) buflen) [
      | no f ↦ (buffer, rw (write_str_small buflen m bytes buffer written (omega arith)) refl)
      | yes fits ↦
          let (b₁, e₁, w₁) = write_str_fits buflen m bytes buffer written fits in
          let (b₂, e₂) =
            write_members_small buflen members (bytes ++ block) b₁ w₁ (omega arith) (omega arith) in
          (b₂, rw (e₁, e₂) refl)
    ]

pub align-bounds : (offset : ℕ) → (offset ≤ align offset)
unfolding align
align-bounds offset = ground arith

module _ (base buflen : ℕ) (bytes : List ℕ) (buffer : Buffer)
    (written : IsWritten buflen bytes buffer) where
  -- The free bytes up to the array.
  padded :
      align (length bytes) ≤ buflen
      → (padding rest : List ℕ) × (buffer.bytes ≡ (bytes ++ padding) ++ rest)
        × (align buffer.offset ≡ length (bytes ++ padding))
  padded h =
      let gap = align (length bytes) - length bytes in
      let enough = written.enough in
      let cut = take-append-drop gap written.free in
      let size : length (take gap written.free) ≡ gap =
        let whole : length (take gap written.free) + length (drop gap written.free)
            ≡ length written.free =
          sym (length-append (take gap written.free) (drop gap written.free)) ∙ ap length cut in
        omega (arith, length-drop gap written.free, align-bounds (length bytes)) in
      (
        take gap written.free,
        drop gap written.free,
        written.parts
            ∙ ap (λ free. bytes ++ free) (sym cut)
            ∙ sym (append_assoc bytes (take gap written.free) (drop gap written.free)),
        ap align written.at_end
            ∙ omega (
              arith,
              size,
              length-append bytes (take gap written.free),
              align-bounds (length bytes),
            ),
      )

  -- The array goes behind the strings.
  pub write_array_fits :
      (pointers : List ℕ)
      → align (length bytes) + (length pointers + 1) * pointer_size ≤ buflen
      → (buffer' : Buffer) × (before rest free : List ℕ) × (write_array base buflen pointers buffer
          ≡ (ok (length before), buffer'))
        × (buffer'.bytes ≡ bytes ++ rest)
        × (buffer'.bytes ≡ before ++ (encode base pointers ++ free))
  unfolding write_array
  write_array_fits pointers h =
      let (padding, rest, split, aligned) = padded (omega arith) in
      let before = bytes ++ padding in
      let (free, e) = write_pointers-encode base pointers before rest in
      let fits : ltb buflen (align buffer.offset + (length pointers + 1) * pointer_size) ≡ false =
        rw (written.at_end) (ground arith) in
      let written_at : write_pointers base (align buffer.offset) pointers buffer.bytes
          ≡ before ++ (encode base pointers ++ free) =
        ap (λ bytes. write_pointers base (align buffer.offset) pointers bytes) split
        ∙ ap (λ at. write_pointers base at pointers (before ++ rest)) aligned
        ∙ e in
      (
        record {
          bytes = write_pointers base (align buffer.offset) pointers buffer.bytes;
          offset = align buffer.offset;
        },
        before,
        padding ++ (encode base pointers ++ free),
        free,
        rw fits (λ i. (
          ok (aligned i),
          record {
            bytes = write_pointers base (align buffer.offset) pointers buffer.bytes;
            offset = align buffer.offset;
          },
        )),
        written_at ∙ append_assoc bytes padding (encode base pointers ++ free),
        written_at,
      )

  pub write_array_small :
      (pointers : List ℕ)
      → buflen < align (length bytes) + (length pointers + 1) * pointer_size
      → (buffer' : Buffer) × (write_array base buflen pointers buffer ≡ (err too_small, buffer'))
  unfolding write_array
  write_array_small pointers h =
      let small : ltb buflen (align buffer.offset + (length pointers + 1) * pointer_size) ≡ true =
        rw (written.at_end) (ground arith) in
      (record { bytes = buffer.bytes; offset = align buffer.offset }, rw small refl)
