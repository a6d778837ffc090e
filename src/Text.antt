-- ===== src/Text.antt =====
-- Rust's `str` and `String` as their UTF-8 bytes.
pub mod Trim
use Prim.Native.Char.{code}
use Prim.Native.String.{String}
use sssd_oidc.Prelude.{
  ℕ, zero, suc, ◌+◌, ◌-◌, ◌/◌, ◌%◌, ◌≡◌, refl, ◌↔◌, Bool, true, false, ◌&&◌, List, [], ◌∷◌, ◌++◌,
  length, arith, ◌==◌, ltb, if◌then◌else◌,
}

abbrev pub Str : Type 0
Str = List ℕ

-- An ASCII literal.
abbrev pub ascii : String → Str
ascii String.[] = []
ascii (String.◌∷◌ c s) = code c ∷ ascii s

-- `==` on `str` compares the bytes.
unfoldable pub str_eq : Str → Str → Bool
str_eq [] [] = true
str_eq (a ∷ s) (b ∷ t) = a == b && str_eq s t
str_eq _ _ = false

pub str_eq_iff : (s t : Str) → (str_eq s t ≡ true) ↔ (s ≡ t)
unfolding str_eq
str_eq_iff [] [] = ground arith
str_eq_iff [] (b ∷ t) = ground arith
str_eq_iff (a ∷ s) [] = ground arith
str_eq_iff (a ∷ s) (b ∷ t) = ground (arith, str_eq_iff s t)

pub str_eq_refl : (s : Str) → str_eq s s ≡ true
str_eq_refl s = (str_eq_iff s s).1 refl

pub str_eq_symm : (s t : Str) → str_eq s t ≡ str_eq t s
unfolding str_eq
str_eq_symm [] [] = refl
str_eq_symm [] (b ∷ t) = refl
str_eq_symm (a ∷ s) [] = refl
str_eq_symm (a ∷ s) (b ∷ t) = ground (arith, str_eq_symm s t)

-- `str::starts_with`
unfoldable pub starts_with : Str → Str → Bool
starts_with s [] = true
starts_with [] (p ∷ pat) = false
starts_with (c ∷ s) (p ∷ pat) = c == p && starts_with s pat

-- One more byte before a text that has been trimmed at its end.
trim_cons : ℕ → ℕ → Str → Str
trim_cons b c [] = if c == b then [] else c ∷ []
trim_cons b c (d ∷ s) = c ∷ d ∷ s

-- `str::trim_end_matches` at an ASCII character
unfoldable pub trim_end_matches : Str → ℕ → Str
unfolding trim_cons
trim_end_matches [] b = []
trim_end_matches (c ∷ s) b = trim_cons b c (trim_end_matches s b)

-- `str::replace`, left to right; `skip` bytes belong to the occurrence that was just replaced.
replace_from : (skip : ℕ) → Str → Str → Str → Str
replace_from skip [] pat with_text = []
replace_from (suc skip) (c ∷ s) pat with_text = replace_from skip s pat with_text
replace_from zero (c ∷ s) pat with_text =
    let replaced = replace_from (length pat - 1) s pat with_text in
    let kept = replace_from 0 s pat with_text in
    if starts_with (c ∷ s) pat then with_text ++ replaced else c ∷ kept

-- The pattern is not empty.
unfoldable pub replace : Str → Str → Str → Str
unfolding replace_from starts_with
replace s pat with_text = replace_from 0 s pat with_text

decimal_digits : (fuel : ℕ) → ℕ → Str → Str
decimal_digits zero n digits = digits
decimal_digits (suc fuel) n digits =
    let rest = decimal_digits fuel (n / 10) ((48 + n % 10) ∷ digits) in
    if ltb n 10 then (48 + n) ∷ digits else rest

-- `to_string` of an unsigned integer; it has at most as many digits as 1 + its value.
unfoldable pub decimal : ℕ → Str
unfolding decimal_digits
decimal n = decimal_digits (n + 1) n []
