-- ===== src/Text/Trim.antt =====
-- `str::trim`: the white space of Unicode at both ends, on UTF-8 bytes.
use sssd_oidc.Prelude.{ℕ, zero, suc, Bool, true, false, List, [], ◌∷◌, length, if◌then◌else◌}
use sssd_oidc.Text.{Str, starts_with}

-- The characters with the property White_Space, each as its UTF-8 bytes.
abbrev pub blanks : List Str
blanks =
    (0x09 ∷ [])
    ∷ (0x0a ∷ [])
    ∷ (0x0b ∷ [])
    ∷ (0x0c ∷ [])
    ∷ (0x0d ∷ [])
    ∷ (0x20 ∷ [])
    ∷ (0xc2 ∷ 0x85 ∷ [])
    ∷ (0xc2 ∷ 0xa0 ∷ [])
    ∷ (0xe1 ∷ 0x9a ∷ 0x80 ∷ [])
    ∷ (0xe2 ∷ 0x80 ∷ 0x80 ∷ [])
    ∷ (0xe2 ∷ 0x80 ∷ 0x81 ∷ [])
    ∷ (0xe2 ∷ 0x80 ∷ 0x82 ∷ [])
    ∷ (0xe2 ∷ 0x80 ∷ 0x83 ∷ [])
    ∷ (0xe2 ∷ 0x80 ∷ 0x84 ∷ [])
    ∷ (0xe2 ∷ 0x80 ∷ 0x85 ∷ [])
    ∷ (0xe2 ∷ 0x80 ∷ 0x86 ∷ [])
    ∷ (0xe2 ∷ 0x80 ∷ 0x87 ∷ [])
    ∷ (0xe2 ∷ 0x80 ∷ 0x88 ∷ [])
    ∷ (0xe2 ∷ 0x80 ∷ 0x89 ∷ [])
    ∷ (0xe2 ∷ 0x80 ∷ 0x8a ∷ [])
    ∷ (0xe2 ∷ 0x80 ∷ 0xa8 ∷ [])
    ∷ (0xe2 ∷ 0x80 ∷ 0xa9 ∷ [])
    ∷ (0xe2 ∷ 0x80 ∷ 0xaf ∷ [])
    ∷ (0xe2 ∷ 0x81 ∷ 0x9f ∷ [])
    ∷ (0xe3 ∷ 0x80 ∷ 0x80 ∷ [])
    ∷ []

-- The length of the character in front if it is one of these, else 0.
unfoldable pub front : List Str → Str → ℕ
front [] s = 0
front (blank ∷ rest) s =
    let other = front rest s in if starts_with s blank then length blank else other

trim_from : (skip : ℕ) → Str → Str
trim_from skip [] = []
trim_from (suc skip) (c ∷ s) = trim_from skip s
trim_from zero (c ∷ s) = elim (front blanks (c ∷ s)) [ zero ↦ c ∷ s | suc k ↦ trim_from k s ]

-- `str::trim_start`
unfoldable pub trim_start : Str → Str
unfolding trim_from front starts_with
trim_start s = trim_from 0 s

abbrev is_empty : Str → Bool
is_empty [] = true
is_empty (c ∷ s) = false

-- `str::trim_end`: a suffix of white space is left out. No such character begins inside another.
unfoldable pub trim_end : Str → Str
unfolding trim_start
trim_end [] = []
trim_end (c ∷ s) = let rest = trim_end s in if is_empty (trim_start (c ∷ s)) then [] else c ∷ rest

unfoldable pub trim : Str → Str
unfolding trim_end
trim s = trim_end (trim_start s)
