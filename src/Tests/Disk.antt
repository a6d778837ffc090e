-- ===== src/Tests/Disk.antt =====
-- A concrete disk with one file, and a database in it.
use sssd_oidc.Prelude.{ℕ, ◌⊎◌, inr, ap, sym, refl, ◌∙◌, ◌≡◌, true, false, none, []}
use sssd_oidc.Text.{Str, ascii}
use sssd_oidc.Files.{Files, Metadata}
use sssd_oidc.Config.{Config}
use sssd_oidc.Cache.Open.{Sqlite}
use sssd_oidc.Cache.Hardening.{IsUndisturbed, chmod}
use sssd_oidc.Startup.{Machine}
use sssd_oidc.Tests.Fixtures.{empty_db}
use sssd_oidc.Tests.Server.{config}

-- The state is what is known of the file, which holds a space and "t".
abbrev pub disk : Files Metadata
disk = record {
  symlink_metadata = λ path f. (inr f, f);
  read_to_string = λ path f. (inr (ascii " t"), f);
  set_permissions = λ path mode f. (inr tt, chmod mode f);
  var = λ name. none;
  euid = 0;
  error_text = λ e. [];
}

-- 0o100600, 0o100644
abbrev pub private_file : Metadata
private_file = record { is_file = true; mode = 33152; uid = 0 }

abbrev pub shared_file : Metadata
shared_file = record { is_file = true; mode = 33188; uid = 0 }

abbrev pub database : Sqlite Metadata
database = record {
  connect = λ path f. (inr empty_db, f);
  execute_batch = λ path sql db f. (inr db, f);
}

abbrev pub inode : Metadata → Str → ℕ ⊎ Metadata
inode f path = inr f

inr_inj : (a b : Metadata) → ◌≡◌ {A = ℕ ⊎ Metadata} (inr a) (inr b) → a ≡ b
inr_inj a b h = cc

pub undisturbed : IsUndisturbed disk database inode
undisturbed = record {
  looks = λ path f. refl;
  changes = λ path mode f f' meta h here.
      ap inr (sym (ap (λ r. r.1) h) ∙ ap (chmod mode) (inr_inj f meta here));
  keeps = λ path sql db f. refl;
}

abbrev pub strict_config : Config
strict_config = record config {
  oidc = record {
    issuer_url = ascii "https://idp";
    client_id = ascii "c";
    client_secret = none;
    allow_insecure = false;
  };
}

-- With the token of the file.
abbrev pub loaded_config : Config
loaded_config = record strict_config {
  scim = record strict_config.scim { bearer_token = ascii "t" };
}

abbrev pub from_str : Str → ℕ ⊎ Config
from_str text = inr strict_config

abbrev pub machine : Machine Metadata
machine = record {
  files = private_file;
  logger = record { initialised = false; ident = none; opened = none; subscriber = none };
}
