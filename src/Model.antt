-- ===== src/Model.antt =====
-- src/model.rs: a resolved POSIX user and a resolved POSIX group.
use sssd_oidc.Prelude.{ℕ, Bool, List}
use sssd_oidc.Text.{Str}

pub record User : Type 0 where
  pub external_id : Str
  pub name : Str
  pub uid : ℕ
  pub gid : ℕ
  pub gecos : Str
  pub home : Str
  pub shell : Str
  pub active : Bool

pub record Group : Type 0 where
  pub external_id : Str
  pub name : Str
  pub gid : ℕ
  pub members : List Str
