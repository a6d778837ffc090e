-- ===== src/Scim.antt =====
-- src/scim.rs: the SCIM resources and the client.
-- The HTTP agent (ureq) and the JSON decoders (serde) are taken as a record `Http`: a GET request is
-- answered by a body or an error, and a body is decoded or refused.
pub mod Filter
pub mod Paging
use sssd_oidc.Prelude.{
  ℕ, zero, suc, ◌+◌, Bool, true, false, List, [], ◌∷◌, ◌++◌, Option, none, some, ◌||◌, leb, ◌==◌,
  if◌then◌else◌, length, first, ◌⊎◌, inl, inr,
}
use sssd_oidc.Text.{Str, ascii, trim_end_matches, decimal}
use sssd_oidc.Outcome.{Outcome, ok, err, ◌>>=◌, from_result}

pub record ScimGroupRef : Type 0 where
  pub value : Str
  pub display : Option Str

pub record ScimUser : Type 0 where
  pub id : Str
  pub user_name : Str
  pub display_name : Option Str
  pub active : Option Bool
  pub groups : List ScimGroupRef

pub record ScimMemberRef : Type 0 where
  pub value : Str
  pub display : Option Str

pub record ScimGroup : Type 0 where
  pub id : Str
  pub display_name : Str
  pub members : List ScimMemberRef

pub record ListResponse (T : Type 0) : Type 0 where
  pub total_results : ℕ
  pub resources : List T

-- `ureq::Error`: a status that counts as an error, or anything else.
pub data HttpError : Type 0 where
  status_code : ℕ → HttpError
  transport : ℕ → HttpError

pub data ScimError : Type 0 where
  http : HttpError → ScimError
  json : ℕ → ScimError
  user_not_found group_not_found : Str → ScimError

pub record Request : Type 0 where
  pub url : Str
  pub query_pairs : List (Str × Str)
  pub authorization : Str

pub record Http : Type 0 where
  pub call : Request → HttpError ⊎ Str
  pub percent_encode : Str → Str
  pub read_user : Str → ℕ ⊎ ScimUser
  pub read_group : Str → ℕ ⊎ ScimGroup
  pub read_users : Str → ℕ ⊎ (ListResponse ScimUser)
  pub read_groups : Str → ℕ ⊎ (ListResponse ScimGroup)

-- The bytes of `\` and `"` occur in no multi-byte character, so the walk over characters is one over
-- bytes.
unfoldable pub escape_filter_value : Str → Str
escape_filter_value [] = []
escape_filter_value (ch ∷ value) =
    let rest = escape_filter_value value in
    if ch == 0x5c then 0x5c ∷ 0x5c ∷ rest else if ch == 0x22 then 0x5c ∷ 0x22 ∷ rest else ch ∷ rest

pub record ScimClient : Type 0 where
  pub base_url : Str
  pub bearer_token : Str

unfoldable pub new : Str → Str → ScimClient
new base_url bearer_token = record {
  base_url = trim_end_matches base_url b'/';
  bearer_token = bearer_token;
}

unfoldable pub auth_header_value : ScimClient → Str
auth_header_value client = ascii "Bearer " ++ client.bearer_token

-- A GET with the bearer token.
unfoldable pub get_request : ScimClient → Str → List (Str × Str) → Request
unfolding auth_header_value
get_request client path query_pairs = record {
  url = client.base_url ++ path;
  query_pairs = query_pairs;
  authorization = auth_header_value client;
}

abbrev pub max_pagination_pages : ℕ
max_pagination_pages = 1_000

abbrev pub page_count : ℕ
page_count = 100

module _ (server : Http) (client : ScimClient) where
  -- `.call()?.body_mut().read_json()?`
  unfoldable pub fetch : {T : Type 0} → (Str → ℕ ⊎ T) → Request → Outcome ScimError T
  fetch read request = do
    body ← from_result http (server.call request)
    from_result json (read body)

  unfoldable pub get_user_by_name : Str → Outcome ScimError (Option ScimUser)
  unfolding fetch get_request
  get_user_by_name name = do
    let filter = ascii "userName eq \"" ++ escape_filter_value name ++ ascii "\""
    resp ←
        fetch server.read_users
          (get_request client (ascii "/Users") ((ascii "filter", filter) ∷ []))
    ok (first resp.resources)

  unfoldable pub get_group_by_name : Str → Outcome ScimError (Option ScimGroup)
  unfolding fetch get_request
  get_group_by_name name = do
    let filter = ascii "displayName eq \"" ++ escape_filter_value name ++ ascii "\""
    resp ←
        fetch server.read_groups
          (get_request client (ascii "/Groups") ((ascii "filter", filter) ∷ []))
    ok (first resp.resources)

  -- The `match` of the two lookups by id: 404 means that there is none.
  unfoldable pub found_by_id :
      {T : Type 0} → (Str → ℕ ⊎ T) → HttpError ⊎ Str → Outcome ScimError (Option T)
  found_by_id read (inr body) = do resource ← from_result json (read body); ok (some resource)
  found_by_id read (inl (status_code status)) =
      if status == 404 then ok none else err (http (status_code status))
  found_by_id read (inl (transport code)) = err (http (transport code))

  unfoldable pub get_user_by_id : Str → Outcome ScimError (Option ScimUser)
  unfolding found_by_id get_request
  get_user_by_id id =
      found_by_id server.read_user
        (server.call (get_request client (ascii "/Users/" ++ server.percent_encode id) []))

  unfoldable pub get_group_by_id : Str → Outcome ScimError (Option ScimGroup)
  unfolding found_by_id get_request
  get_group_by_id id =
      found_by_id server.read_group
        (server.call (get_request client (ascii "/Groups/" ++ server.percent_encode id) []))

  abbrev pub page_request : Str → ℕ → Request
  page_request resource start_index =
      get_request client (b'/' ∷ resource)
        ((ascii "startIndex", decimal start_index) ∷ (ascii "count", decimal page_count) ∷ [])

  module _ {T : Type 0} (read : Str → ℕ ⊎ ListResponse T) (resource : Str) where
    -- The loop over pages, with the rounds left.
    unfoldable pub pages : ℕ → ℕ → List T → Outcome ScimError (List T)
    unfolding fetch get_request
    pages zero start_index all = ok all
    pages (suc rounds) start_index all = do
      resp ← fetch read (page_request resource start_index)
      let fetched = length resp.resources
      let all' = all ++ resp.resources
      let next = pages rounds (start_index + fetched) all'
      if leb resp.total_results (length all') || fetched == 0 then ok all' else next

    unfoldable pub paginate_list : Outcome ScimError (List T)
    unfolding pages
    paginate_list = pages max_pagination_pages 1 []

  unfoldable pub list_users : Outcome ScimError (List ScimUser)
  unfolding paginate_list
  list_users = paginate_list server.read_users (ascii "Users")

  unfoldable pub list_groups : Outcome ScimError (List ScimGroup)
  unfolding paginate_list
  list_groups = paginate_list server.read_groups (ascii "Groups")

  unfoldable pub is_online : Bool
  unfolding get_request
  is_online =
      elim (server.call (get_request client (ascii "/Users") ((ascii "count", ascii "0") ∷ []))) [
        | inr body ↦ true
        | inl e ↦ false
      ]
