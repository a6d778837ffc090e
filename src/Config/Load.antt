-- ===== src/Config/Load.antt =====
-- src/config.rs: loading the configuration, on Linux. The TOML decoder (toml, serde) is a parameter.
use sssd_oidc.Prelude.{ℕ, not, ◌&&◌, ◌++◌, none, some, ◌==◌, if◌then◌else◌, ◌⊎◌}
use sssd_oidc.Text.{Str, ascii, decimal}
use sssd_oidc.Text.Trim.{trim}
use sssd_oidc.Outcome.{Outcome, ok, err, from_result}
use sssd_oidc.Exec.{Exec, pure, reads, ◌>>=◌, ◌>>◌}
use sssd_oidc.Files.{Files, Metadata, group_other_bits, access_bits, octal}
use sssd_oidc.Config.{Config}

pub data ConfigError : Type 0 where
  read : (path : Str) (source : ℕ) → ConfigError
  parse : ℕ → ConfigError
  insecure_permissions : (path detail : Str) → ConfigError

abbrev pub default_config_path : Str
default_config_path = ascii "/etc/sssd-oidc/config.toml"

-- The checks on what `symlink_metadata` tells.
unfoldable pub secret_metadata : (path : Str) (euid : ℕ) → Metadata → Outcome ConfigError (Unit {0})
secret_metadata path euid meta =
    if not meta.is_file
    then err (insecure_permissions path (ascii "not a regular file"))
    else if not (group_other_bits meta.mode == 0)
    then err (
        insecure_permissions path (
          ascii "permissions "
          ++ octal (access_bits meta.mode)
          ++ ascii " are too open; must not be accessible by group or others. "
          ++ ascii "Run: chmod 600 "
          ++ path))
    else if euid == 0 && not (meta.uid == 0)
    then err (
        insecure_permissions path
          (ascii "owned by uid " ++ decimal meta.uid ++ ascii " but must be owned by root (uid 0)"))
    else ok tt

module _ {F : Type 0} (files : Files F) where
  unfoldable pub config_path : Str
  config_path = elim (files.var (ascii "SSSD_OIDC_CONFIG")) [
    | some path ↦ path
    | none ↦ default_config_path
  ]

  -- `read_to_string(path).map_err(…)?`
  unfoldable pub read_file : (path : Str) → Exec F ConfigError Str
  read_file path f =
      let (contents, f') = files.read_to_string path f in (from_result (read path) contents, f')

  unfoldable pub check_secret_file_permissions : (path : Str) → Exec F ConfigError (Unit {0})
  unfolding secret_metadata
  check_secret_file_permissions path = do
    meta ←
        λ f. let (found, f') = files.symlink_metadata path f in (from_result (read path) found, f')
    reads λ _. secret_metadata path files.euid meta

  module _ (from_str : Str → ℕ ⊎ Config) where
    unfoldable pub load_from : (path : Str) → Exec F ConfigError Config
    unfolding read_file check_secret_file_permissions trim
    load_from path = do
      contents ← read_file path
      config ← reads λ _. from_result parse (from_str contents)
      check_secret_file_permissions config.scim.bearer_token_file
      token ← read_file config.scim.bearer_token_file
      pure (record config { scim = record config.scim { bearer_token = trim token } })

    unfoldable pub load : Exec F ConfigError Config
    unfolding load_from config_path
    load = load_from config_path
