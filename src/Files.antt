-- ===== src/Files.antt =====
-- What the code uses of the operating system's files and environment. The state `F` is the world
-- outside, which others change too: every call may find it changed, and hands on what it leaves.
use sssd_oidc.Prelude.{ℕ, ◌+◌, ◌/◌, ◌%◌, ◌^◌, Bool, [], ◌∷◌, Option, ◌⊎◌}
use sssd_oidc.Text.{Str}

-- `std::fs::Metadata`
pub record Metadata : Type 0 where
  pub is_file : Bool
  pub mode : ℕ
  pub uid : ℕ

-- An error is its `errno`. A change of mode replaces the twelve permission bits of a regular file.
pub record Files (F : Type 0) : Type 0 where
  pub symlink_metadata : (path : Str) → F → (ℕ ⊎ Metadata) × F
  pub read_to_string : (path : Str) → F → (ℕ ⊎ Str) × F
  pub set_permissions : (path : Str) (mode : ℕ) → F → (ℕ ⊎ Unit {0}) × F
  pub var : (name : Str) → Option Str
  pub euid : ℕ
  pub error_text : ℕ → Str

-- `mode & 0o077` and `mode & 0o777`
abbrev pub group_other_bits : ℕ → ℕ
group_other_bits mode = mode % 2 ^ 6

abbrev pub access_bits : ℕ → ℕ
access_bits mode = mode % 2 ^ 9

-- `{:04o}` of a number below 8^4
abbrev pub octal : ℕ → Str
octal n = (48 + n / 512 % 8) ∷ (48 + n / 64 % 8) ∷ (48 + n / 8 % 8) ∷ (48 + n % 8) ∷ []
