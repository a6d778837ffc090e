-- ===== src/Scim/Paging.antt =====
-- `paginate_list` of src/scim.rs against a server that pages a fixed list.
use sssd_oidc.Prelude.{ℕ, ◌+◌, ◌≡◌, List, ◌++◌, length, take, ◌⊎◌}
use sssd_oidc.Text.{Str}
use sssd_oidc.Outcome.{ok}
use sssd_oidc.Scim.{ListResponse, Http, ScimClient, fetch, page_request}

module _ (server : Http) (client : ScimClient) {T : Type 0} (read : Str → ℕ ⊎ ListResponse T)
    (resource : Str) (all : List T) (size : ℕ) where
  -- The server answers the page that starts after `done` by at most `size` of the elements left,
  -- and by the number of all.
  abbrev pub Pages : Type 0
  Pages =
      (done rest : List T)
      → all ≡ done ++ rest
      → fetch server client read (page_request server client resource (length done + 1))
        ≡ ok (record { total_results = length all; resources = take size rest })
