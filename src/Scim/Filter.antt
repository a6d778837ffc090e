-- ===== src/Scim/Filter.antt =====
-- `escape_filter_value` of src/scim.rs against the quoted strings of a SCIM filter, which are JSON
-- strings (RFC 7644, RFC 8259).
use sssd_oidc.Prelude.{
  ℕ, ◌≡◌, refl, Bool, true, false, [], ◌∷◌, ◌++◌, Option, none, some, any, ltb, ◌==◌, if◌then◌else◌,
  arith, inl, inr, Bool-cases, ◌∙◌,
}
use sssd_oidc.Text.{Str}
use sssd_oidc.Scim.{escape_filter_value}

-- A JSON string has no control character.
abbrev pub is_control : ℕ → Bool
is_control c = ltb c 0x20

-- What stands for the character after a backslash, but for `u` and its four digits: as the client never
-- writes a backslash before `u`, this reader refuses it.
unfoldable pub unescaped : ℕ → Option ℕ
unescaped c =
    if c == 0x22
    then some 0x22
    else if c == 0x5c
    then some 0x5c
    else if c == 0x2f
    then some 0x2f
    else if c == 0x62
    then some 0x08
    else if c == 0x66
    then some 0x0c
    else if c == 0x6e
    then some 0x0a
    else if c == 0x72
    then some 0x0d
    else if c == 0x74
    then some 0x09
    else none

prepend : Option ℕ → Option (Str × Str) → Option (Str × Str)
prepend none read = none
prepend (some c) none = none
prepend (some c) (some (value, rest)) = some (c ∷ value, rest)

-- The value of a quoted string whose opening quote has been read, and what follows its end.
unfoldable pub read_quoted : Str → Option (Str × Str)
unfolding prepend
read_quoted [] = none
read_quoted (c ∷ []) = if c == 0x22 then some ([], []) else none
read_quoted (c ∷ d ∷ text) =
    let escaped = prepend (unescaped d) (read_quoted text) in
    let plain = prepend (some c) (read_quoted (d ∷ text)) in
    if c == 0x22
    then some ([], d ∷ text)
    else if c == 0x5c
    then escaped
    else if is_control c
    then none
    else plain

read_plain :
    (c : ℕ) (text : Str)
    → (c == 0x22) ≡ false
    → (c == 0x5c) ≡ false
    → read_quoted (c ∷ text) ≡ (if is_control c then none else prepend (some c) (read_quoted text))
unfolding read_quoted
read_plain c [] p q = ground arith
read_plain c (d ∷ text) p q = ground arith

-- The value back if it has no control character.
abbrev read_back : Bool → Str → Str → Option (Str × Str)
read_back refused value rest = if refused then none else some (value, rest)

prepend_back :
    (c : ℕ) (refused : Bool) (value rest : Str)
    → prepend (some c) (read_back refused value rest) ≡ read_back refused (c ∷ value) rest
unfolding prepend
prepend_back c true value rest = refl
prepend_back c false value rest = refl

-- A reader of JSON strings (of all their escapes but `u`, which the client never writes) that has passed
-- the opening quote reads a value that has no control character (below 0x20) back from its escaped form,
-- and stops at the closing quote that the client wrote; a value that has one it refuses, since the client
-- does not escape it.
pub read_quoted-escape_filter_value :
    (value rest : Str)
    → read_quoted (escape_filter_value value ++ 0x22 ∷ rest)
      ≡ (if any is_control value then none else some (value, rest))
unfolding read_quoted escape_filter_value any unescaped
read_quoted-escape_filter_value [] [] = refl
read_quoted-escape_filter_value [] (d ∷ rest) = refl
read_quoted-escape_filter_value (c ∷ value) rest =
    let ih = read_quoted-escape_filter_value value rest in
    elim (Bool-cases (c == 0x5c)) [
      | inl slash ↦
          let e : c ≡ 0x5c = ground arith in
          rw (slash, ih, e) (prepend_back 0x5c (any is_control value) value rest)
      | inr other ↦ elim (Bool-cases (c == 0x22)) [
        | inl quote ↦
            let e : c ≡ 0x22 = ground arith in
            rw (other, quote, ih, e) (prepend_back 0x22 (any is_control value) value rest)
        | inr plain ↦
            rw (other, plain)
              (read_plain c _ plain other
                ∙ rw ih (elim (Bool-cases (is_control c)) [
                  | inl control ↦ rw control refl
                  | inr printed ↦ rw printed (prepend_back c (any is_control value) value rest)
                ]))
      ]
    ]
