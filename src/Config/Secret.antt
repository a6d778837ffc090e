-- ===== src/Config/Secret.antt =====
-- What src/config.rs has checked of the file that the bearer token is read from.
use sssd_oidc.Prelude.{ℕ, ◌≡◌, ◌↔◌, ap, true, ◌⊎◌, inr, arith}
use sssd_oidc.Text.{Str}
use sssd_oidc.Text.Trim.{trim}
use sssd_oidc.Outcome.{ok, from_result}
use sssd_oidc.Exec.{reads}
use sssd_oidc.Exec.Success.{bind-ok, from_result-ok}
use sssd_oidc.Files.{Files, Metadata, group_other_bits}
use sssd_oidc.Config.{Config}
use sssd_oidc.Config.Load.{
  read, parse, secret_metadata, read_file, check_secret_file_permissions, load_from,
}

-- A regular file that group and others have no access to, and that is root's if root reads it.
pub record IsSecret (euid : ℕ) (meta : Metadata) : Type 0 where
  pub regular : meta.is_file ≡ true
  pub closed : group_other_bits meta.mode ≡ 0
  pub owned : euid ≡ 0 → meta.uid ≡ 0

-- The checks accept exactly such a file; they refuse any other with an error.
pub secret_metadata-IsSecret_iff :
    (path : Str) (euid : ℕ) (meta : Metadata)
    → (secret_metadata path euid meta ≡ ok tt) ↔ IsSecret euid meta
unfolding secret_metadata
secret_metadata-IsSecret_iff path euid meta = (
  (λ h. record { regular = ground arith; closed = ground arith; owned = λ root. ground arith }),
  (λ s. let owned = s.owned in ground (arith, s.regular, s.closed)),
)

module _ {F : Type 0} (files : Files F) where
  read_file-ok :
      (path : Str) (f f' : F) {text : Str}
      → read_file files path f ≡ (ok text, f')
      → (files.read_to_string path f).0 ≡ inr text
  unfolding read_file
  read_file-ok path f f' h = from_result-ok (read path) _ (ap (λ r. r.0) h)

  check-ok :
      (path : Str) (f f' : F) (u : Unit {0})
      → check_secret_file_permissions files path f ≡ (ok u, f')
      → (meta : Metadata) × ((files.symlink_metadata path f).0 ≡ inr meta)
        × IsSecret files.euid meta
  unfolding check_secret_file_permissions
  check-ok path f f' u h =
      let (meta, e, rest) =
        bind-ok
          (λ f. (
            from_result (read path) (files.symlink_metadata path f).0,
            (files.symlink_metadata path f).1,
          ))
          _ f h in
      (
        meta,
        from_result-ok (read path) _ (ap (λ r. r.0) e),
        (secret_metadata-IsSecret_iff path files.euid meta).0 (ap (λ r. r.0) rest),
      )

  module _ (from_str : Str → ℕ ⊎ Config) where
    -- How a configuration came about.
    pub record Loaded (path : Str) (f : F) (config : Config) : Type 0 where
      pub contents : Str
      pub token : Str
      pub written : Config
      pub examined : F
      pub opened : F
      pub meta : Metadata
      pub file : (files.read_to_string path f).0 ≡ inr contents
      pub parsed : from_str contents ≡ inr written
      pub found : (files.symlink_metadata written.scim.bearer_token_file examined).0 ≡ inr meta
      pub secret : IsSecret files.euid meta
      pub then_read : (files.read_to_string written.scim.bearer_token_file opened).0 ≡ inr token
      pub same :
          config ≡ record written { scim = record written.scim { bearer_token = trim token } }

    -- A configuration that `load_from` returns is the one in the file, with the trimmed contents of
    -- its token file, which was, when it was examined, a regular file without access for group and
    -- others, and root's if root examined it.
    pub load_from-Loaded :
        (path : Str) (f f' : F) (config : Config)
        → load_from files from_str path f ≡ (ok config, f')
        → Loaded path f config
    unfolding load_from
    load_from-Loaded path f f' config h =
        let (contents, e₁, h₁) = bind-ok (read_file files path) _ f h in
        let (written, e₂, h₂) =
          bind-ok (reads (λ _. from_result parse (from_str contents))) _ _ h₁ in
        let f₁ = (read_file files path f).1 in
        let token_file = written.scim.bearer_token_file in
        let (_, e₃, h₃) = bind-ok (check_secret_file_permissions files token_file) _ f₁ h₂ in
        let f₂ = (check_secret_file_permissions files token_file f₁).1 in
        let (token, e₄, h₄) = bind-ok (read_file files token_file) _ f₂ h₃ in
        let (meta, found, secret) = check-ok token_file f₁ f₂ _ e₃ in
        record {
          contents = contents;
          token = token;
          written = written;
          examined = f₁;
          opened = f₂;
          meta = meta;
          file = read_file-ok path f _ e₁;
          parsed = from_result-ok parse _ (ap (λ r. r.0) e₂);
          found = found;
          secret = secret;
          then_read = read_file-ok token_file f₂ _ e₄;
          same = cc (ap (λ r. r.0) h₄);
        }
