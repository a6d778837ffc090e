-- ===== src/Tests/ScimTest.antt =====
-- Runs of src/scim.rs.
use sssd_oidc.Prelude.{
  ℕ, ◌≡◌, ◌-◌, refl, List, [], ◌∷◌, ◌++◌, some, inl, inr, take, drop, ◌⊎◌, none, any, if◌then◌else◌,
}
use sssd_oidc.Text.{Str, ascii}
use sssd_oidc.Scim.{ListResponse, Http, ScimClient, escape_filter_value}
use sssd_oidc.Scim.Filter.{is_control, unescaped, read_quoted, read_quoted-escape_filter_value}

abbrev name : Str
name = ascii "a\"b"

read_quoted-escape_filter_value_example :
    read_quoted (escape_filter_value name ++ 0x22 ∷ ascii " or")
    ≡ (if any is_control name then none else some (name, ascii " or"))
read_quoted-escape_filter_value_example = read_quoted-escape_filter_value name (ascii " or")

quoted : read_quoted (escape_filter_value name ++ 0x22 ∷ ascii " or") ≡ some (name, ascii " or")
unfolding read_quoted escape_filter_value unescaped
quoted = refl

newline_refused : read_quoted (escape_filter_value (0x61 ∷ 0x0a ∷ []) ++ 0x22 ∷ []) ≡ none
unfolding read_quoted escape_filter_value unescaped
newline_refused = refl

-- A server of two elements, one on each page; the body is the start index of the request.
abbrev elements : List ℕ
elements = 5 ∷ 6 ∷ []

abbrev start_index : List (Str × Str) → Str
start_index [] = []
start_index ((key, value) ∷ pairs) = value

abbrev read_page : Str → ℕ ⊎ ListResponse ℕ
read_page [] = inl 0
read_page (c ∷ digits) =
    inr (record { total_results = 2; resources = take 1 (drop (c - 49) elements) })

abbrev server : Http
server = record {
  call = λ request. inr (start_index request.query_pairs);
  percent_encode = λ s. s;
  read_user = λ body. inl 0;
  read_group = λ body. inl 0;
  read_users = λ body. inl 0;
  read_groups = λ body. inl 0;
}

abbrev client : ScimClient
client = record { base_url = ascii "https://scim"; bearer_token = ascii "token" }
