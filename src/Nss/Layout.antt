-- ===== src/Nss/Layout.antt =====
-- What `write_str` of crates/nss_oidc leaves in the buffer.
use sssd_oidc.Prelude.{
  ℕ, ◌+◌, ◌≤◌, ◌<◌, ◌≡◌, refl, sym, ap, ◌∙◌, true, false, List, [], ◌∷◌, ◌++◌, Option, none, some,
  ltb, ◌==◌, if◌then◌else◌, length, length-append, length-drop, take, drop, append_assoc, arith,
  All,
}
use native.Mathlib.Nat.{zero-add, suc-add, add-zero}
use sssd_oidc.Text.{Str}
use sssd_oidc.Outcome.{ok, err}
use sssd_oidc.Nss.Buffer.{Buffer, too_small, copy_to, write_str}

-- The string at an address, as C reads it: up to the first NUL.
pub c_string : List ℕ → Option Str
c_string [] = none
c_string (c ∷ bytes) =
    let rest = c_string bytes in
    if c == 0 then some [] else elim rest [ none ↦ none | some s ↦ some (c ∷ s) ]

pub c_string_at : ℕ → List ℕ → Option Str
c_string_at address bytes = c_string (drop address bytes)

-- No NUL inside, as C needs it.
abbrev pub HasNoNul : Str → Type 0
HasNoNul s = All (λ c. (c == 0) ≡ false) s

c_string-append : (s rest : Str) → HasNoNul s → c_string (s ++ 0 ∷ rest) ≡ some s
unfolding c_string
c_string-append [] rest h = refl
c_string-append (c ∷ s) rest (h, hs) = rw (h, c_string-append s rest hs)

-- The buffer begins with these bytes, and the offset is after them.
pub record IsWritten (buflen : ℕ) (bytes : List ℕ) (buffer : Buffer) : Type 0 where
  pub free : List ℕ
  pub parts : buffer.bytes ≡ bytes ++ free
  pub at_end : buffer.offset ≡ length bytes
  pub enough : buflen ≤ length bytes + length free

module _ {A : Type 0} where
  pub take-length_append : (xs ys : List A) → take (length xs) (xs ++ ys) ≡ xs
  take-length_append [] ys = refl
  take-length_append (x ∷ xs) ys = ap (λ t. x ∷ t) (take-length_append xs ys)

  pub drop-length_append : (xs ys : List A) (k : ℕ) → drop (length xs + k) (xs ++ ys) ≡ drop k ys
  drop-length_append [] ys k = rw (zero-add) refl
  drop-length_append (x ∷ xs) ys k = rw (suc-add) (drop-length_append xs ys k)

-- A string that was written after `before` is read back from its address.
pub c_string_at-append :
    (before s rest bytes : List ℕ)
    → HasNoNul s
    → bytes ≡ (before ++ (s ++ 0 ∷ [])) ++ rest
    → c_string_at (length before) bytes ≡ some s
unfolding c_string_at
c_string_at-append before s rest bytes h e =
    let here : drop (length before) bytes ≡ s ++ 0 ∷ rest =
      ap (drop (length before)) (e ∙ append_assoc before (s ++ 0 ∷ []) rest)
      ∙ ap (λ k. drop k (before ++ ((s ++ 0 ∷ []) ++ rest))) (sym (add-zero (length before)))
      ∙ drop-length_append before ((s ++ 0 ∷ []) ++ rest) 0
      ∙ append_assoc s (0 ∷ []) rest in
    ap c_string here ∙ c_string-append s rest h

-- Nothing is written yet.
pub IsWritten-nil :
    (buflen : ℕ) (bytes : List ℕ)
    → buflen ≤ length bytes
    → IsWritten buflen [] (record { bytes = bytes; offset = 0 })
IsWritten-nil buflen bytes h = record {
  free = bytes;
  parts = refl;
  at_end = refl;
  enough = omega arith;
}

module _ (buflen : ℕ) (s : Str) (bytes : List ℕ) (buffer : Buffer)
    (written : IsWritten buflen bytes buffer) where
  -- The string goes where the offset points.
  pub write_str_fits :
      length bytes + length s + 1 ≤ buflen
      → (buffer' : Buffer) × (write_str buflen s buffer ≡ (ok (length bytes), buffer'))
        × IsWritten buflen (bytes ++ (s ++ 0 ∷ [])) buffer'
  unfolding write_str
  write_str_fits h =
      let at_end = written.at_end in
      let fits : ltb buflen (buffer.offset + (length s + 1)) ≡ false = ground arith in
      let buffer' : Buffer = record {
        bytes = copy_to buffer.offset (s ++ 0 ∷ []) buffer.bytes;
        offset = buffer.offset + (length s + 1);
      } in
      (
        buffer',
        rw fits (ap (λ o. (ok o, buffer')) at_end),
        record {
          free = drop (length s + 1) written.free;
          parts =
              rw
                (
                  written.at_end, written.parts, length-append, take-length_append,
                  drop-length_append,
                )
                refl;
          at_end = omega (arith, length-append bytes (s ++ 0 ∷ []), length-append s (0 ∷ []));
          enough = omega (
            arith,
            written.enough,
            length-drop (length s + 1) written.free,
            length-append bytes (s ++ 0 ∷ []),
            length-append s (0 ∷ []),
          );
        },
      )

  -- Where there is no room, nothing is written.
  pub write_str_small :
      buflen < length bytes + length s + 1 → write_str buflen s buffer ≡ (err too_small, buffer)
  unfolding write_str
  write_str_small h =
      let at_end = written.at_end in
      let small : ltb buflen (buffer.offset + (length s + 1)) ≡ true = ground arith in rw small
