-- ===== src/Nss/Pointers.antt =====
-- The pointer array of crates/nss_oidc/src/group.rs, as C reads it.
use sssd_oidc.Prelude.{
  ℕ, zero, suc, ◌+◌, ◌*◌, ◌/◌, ◌^◌, ◌≤◌, ◌<◌, ◌≡◌, refl, sym, ap, ◌∙◌, subst, List, [], ◌∷◌, ◌++◌,
  some, length, length-append, take, drop, append_assoc, All, arith,
}
use native.Mathlib.Nat.{add-zero}
use sssd_oidc.Text.{Str}
use sssd_oidc.Nss.Buffer.{copy_to}
use sssd_oidc.Nss.Layout.{
  HasNoNul, c_string_at, c_string_at-append, take-length_append, drop-length_append,
}
use sssd_oidc.Nss.GroupBuffer.{pointer_size, pointer_bytes, write_pointers}

-- A number of bytes, the least significant first.
pub number : List ℕ → ℕ
number [] = 0
number (b ∷ bytes) = b + 256 * number bytes

-- The pointer at an address.
pub pointer_at : ℕ → List ℕ → ℕ
pointer_at address bytes = number (take pointer_size (drop address bytes))

-- C reads these strings through the array at an address of the buffer, and then NULL.
pub ReadsStrings : (base at : ℕ) → List ℕ → List Str → Type 0
ReadsStrings base at bytes [] = pointer_at at bytes ≡ 0
ReadsStrings base at bytes (s ∷ strings) =
    ((offset : ℕ) × (pointer_at at bytes ≡ base + offset)
      × (0 < base + offset)
      × (c_string_at offset bytes ≡ some s))
    × ReadsStrings base (at + pointer_size) bytes strings

length-pointer_bytes : (size address : ℕ) → length (pointer_bytes size address) ≡ size
unfolding pointer_bytes
length-pointer_bytes zero address = refl
length-pointer_bytes (suc size) address = omega (arith, length-pointer_bytes size (address / 256))

number-pointer_bytes :
    (size address : ℕ) → address < 256 ^ size → number (pointer_bytes size address) ≡ address
unfolding pointer_bytes number
number-pointer_bytes zero address h = omega arith
number-pointer_bytes (suc size) address h =
    omega (arith, number-pointer_bytes size (address / 256) (omega arith))

-- The strings with their NULs, one after the other, and where they begin.
unfoldable pub blocks : List Str → List ℕ
blocks [] = []
blocks (s ∷ strings) = (s ++ 0 ∷ []) ++ blocks strings

unfoldable pub offsets : ℕ → List Str → List ℕ
offsets start [] = []
offsets start (s ∷ strings) = start ∷ offsets (start + (length s + 1)) strings

-- The bytes of the array.
pub encode : (base : ℕ) → List ℕ → List ℕ
encode base [] = pointer_bytes pointer_size 0
encode base (pointer ∷ pointers) =
    pointer_bytes pointer_size (base + pointer) ++ encode base pointers

copy_to-append :
    (before source rest : List ℕ)
    → copy_to (length before) source (before ++ rest)
      ≡ before ++ (source ++ drop (length source) rest)
copy_to-append before source rest =
    rw (take-length_append before rest, drop-length_append before rest (length source))
      (append_assoc before source (drop (length source) rest))

pub write_pointers-encode :
    (base : ℕ) (pointers before rest : List ℕ)
    → (free : List ℕ) × (write_pointers base (length before) pointers (before ++ rest)
        ≡ before ++ (encode base pointers ++ free))
unfolding write_pointers encode
write_pointers-encode base [] before rest =
    (_, copy_to-append before (pointer_bytes pointer_size 0) rest)
write_pointers-encode base (pointer ∷ pointers) before rest =
    let written = pointer_bytes pointer_size (base + pointer) in
    let longer : length (before ++ written) ≡ length before + pointer_size =
      length-append before written
      ∙ ap (λ n. length before + n) (length-pointer_bytes 8 (base + pointer)) in
    let (free, e) =
      write_pointers-encode base pointers (before ++ written) (drop (length written) rest) in
    (
      free,
      ap (λ bytes. write_pointers base (length before + pointer_size) pointers bytes)
            (copy_to-append before written rest
              ∙ sym (append_assoc before written (drop (length written) rest)))
          ∙ ap
              (λ at.
                write_pointers base at pointers ((before ++ written) ++ drop (length written) rest))
              (sym longer)
          ∙ e
          ∙ append_assoc before written (encode base pointers ++ free)
          ∙ ap (λ bytes. before ++ bytes) (sym (append_assoc written (encode base pointers) free)),
    )

pointer_at-append :
    (before rest : List ℕ) (address : ℕ)
    → address < 2 ^ 64
    → pointer_at (length before) (before ++ (pointer_bytes pointer_size address ++ rest)) ≡ address
unfolding pointer_at
pointer_at-append before rest address h =
    let written = pointer_bytes pointer_size address in
    let here : drop (length before) (before ++ (written ++ rest)) ≡ written ++ rest =
      ap (λ k. drop k (before ++ (written ++ rest))) (sym (add-zero (length before)))
      ∙ drop-length_append before (written ++ rest) 0 in
    let first_eight : take pointer_size (written ++ rest) ≡ written =
      ap (λ k. take k (written ++ rest)) (sym (length-pointer_bytes pointer_size address))
      ∙ take-length_append written rest in
    ap (λ bytes. number (take pointer_size bytes)) here
    ∙ ap number first_eight
    ∙ number-pointer_bytes pointer_size address (omega (arith, h))

-- An array that was written for strings that were written one after the other.
pub ReadsStrings-encode :
    (base limit : ℕ) (strings : List Str) (start before rest free bytes : List ℕ)
    → 0 < base
    → base + limit ≤ 2 ^ 64
    → length start + length (blocks strings) ≤ limit
    → All HasNoNul strings
    → bytes ≡ (start ++ blocks strings) ++ rest
    → bytes ≡ before ++ (encode base (offsets (length start) strings) ++ free)
    → ReadsStrings base (length before) bytes strings
unfolding ReadsStrings encode offsets blocks
ReadsStrings-encode base limit [] start before rest free bytes nonnull fits within clike e f =
    ap (pointer_at (length before)) f ∙ pointer_at-append before free 0 (omega arith)
ReadsStrings-encode base limit (s ∷ strings) start before rest free bytes nonnull fits within
      (here, clike) e f =
    let written = pointer_bytes pointer_size (base + length start) in
    let block : List ℕ = s ++ 0 ∷ [] in
    let size : length block ≡ length s + 1 = length-append s (0 ∷ []) in
    let total : length (block ++ blocks strings) ≡ length block + length (blocks strings) =
      length-append block (blocks strings) in
    let placed : length (start ++ block) ≡ length start + (length s + 1) =
      length-append start block ∙ ap (λ n. length start + n) size in
    let longer : length (before ++ written) ≡ length before + pointer_size =
      length-append before written
      ∙ ap (λ n. length before + n) (length-pointer_bytes pointer_size (base + length start)) in
    let others = encode base (offsets (length start + (length s + 1)) strings) in
    let f' : bytes ≡ before ++ (written ++ (others ++ free)) =
      f ∙ ap (λ bytes. before ++ bytes) (append_assoc written others free) in
    let e' : bytes ≡ ((start ++ block) ++ blocks strings) ++ rest =
      e ∙ ap (λ bytes. bytes ++ rest) (sym (append_assoc start block (blocks strings))) in
    (
      (
        length start,
        ap (pointer_at (length before)) f'
            ∙ pointer_at-append before (others ++ free) (base + length start) (omega arith),
        omega arith,
        c_string_at-append start s (blocks strings ++ rest) bytes here
            (e' ∙ append_assoc (start ++ block) (blocks strings) rest),
      ),
      subst (λ at. ReadsStrings base at bytes strings) longer
          (ReadsStrings-encode base limit strings (start ++ block) (before ++ written) rest free
            bytes nonnull fits (omega arith) clike e'
            (f'
              ∙ sym (append_assoc before written (others ++ free))
              ∙ ap (λ at. (before ++ written) ++ (encode base (offsets at strings) ++ free))
                  (sym placed))),
    )
