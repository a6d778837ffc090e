-- ===== src/Tests/Server.antt =====
-- A concrete SCIM server with one user, and a service that asks it.
use sssd_oidc.Prelude.{true, [], ◌∷◌, none, some, inl, inr}
use sssd_oidc.Text.{ascii}
use sssd_oidc.Config.{Config, default_user_defaults, default_cache, default_security}
use sssd_oidc.Scim.{Http, ScimUser}
use sssd_oidc.Service.{Service}
use sssd_oidc.Tests.Fixtures.{empty_cache}

abbrev pub scim_alice : ScimUser
scim_alice = record {
  id = ascii "a1";
  user_name = ascii "alice";
  display_name = none;
  active = some true;
  groups = [];
}

abbrev pub server : Http
server = record {
  call = λ request. inr [];
  percent_encode = λ s. s;
  read_user = λ body. inr scim_alice;
  read_group = λ body. inl 0;
  read_users = λ body. inr (record { total_results = 1; resources = scim_alice ∷ [] });
  read_groups = λ body. inr (record { total_results = 0; resources = [] });
}

abbrev pub config : Config
config = record {
  scim = record { base_url = []; bearer_token_file = []; bearer_token = [] };
  oidc = record { issuer_url = []; client_id = []; client_secret = none; allow_insecure = true };
  mapping = record {
    uid_range_min = 1000;
    uid_range_size = 10;
    gid_range_min = 1000;
    gid_range_size = 10;
  };
  user_defaults = default_user_defaults;
  cache = default_cache;
  security = default_security;
}

abbrev pub service : Service
service = record {
  scim = record { base_url = []; bearer_token = [] };
  cache = empty_cache;
  config = config;
}
