-- ===== src/Nss/Buffer.antt =====
-- crates/nss_oidc/src/passwd.rs: `write_str` and `fill_passwd_buf`.
use sssd_oidc.Prelude.{
  ℕ, ◌+◌, List, [], ◌∷◌, ◌++◌, none, some, ltb, if◌then◌else◌, length, take, drop,
}
use sssd_oidc.Text.{Str, ascii}
use sssd_oidc.Outcome.{Outcome, ok, err, panic}
use sssd_oidc.Exec.{Exec, pure, ◌>>=◌}
use sssd_oidc.Model.{User}
use sssd_oidc.Nss.{try_again, success, erange, Answer}

-- The lent buffer and the offset of its first free byte.
pub record Buffer : Type 0 where
  pub bytes : List ℕ
  pub offset : ℕ

pub data TooSmall : Type 0 where
  too_small : TooSmall

-- A copy to the address `offset`.
abbrev pub copy_to : (offset : ℕ) → List ℕ → List ℕ → List ℕ
copy_to offset source bytes = take offset bytes ++ source ++ drop (offset + length source) bytes

unfoldable pub write_str : (buflen : ℕ) → Str → Exec Buffer TooSmall ℕ
write_str buflen s buffer =
    let needed = length s + 1 in
    if ltb buflen (buffer.offset + needed) then (err too_small, buffer) else (
      ok buffer.offset,
      record {
        bytes = copy_to buffer.offset (s ++ 0 ∷ []) buffer.bytes;
        offset = buffer.offset + needed;
      },
    )

-- `struct passwd`, its strings as offsets into the buffer
pub record PasswdStruct : Type 0 where
  pub pw_name : ℕ
  pub pw_passwd : ℕ
  pub pw_uid : ℕ
  pub pw_gid : ℕ
  pub pw_gecos : ℕ
  pub pw_dir : ℕ
  pub pw_shell : ℕ

-- The strings, in the order in which they are written.
unfoldable pub write_passwd : (buflen : ℕ) → User → Exec Buffer TooSmall PasswdStruct
write_passwd buflen user = do
  pw_name ← write_str buflen user.name
  pw_passwd ← write_str buflen (ascii "x")
  pw_gecos ← write_str buflen user.gecos
  pw_dir ← write_str buflen user.home
  pw_shell ← write_str buflen user.shell
  pure (record {
    pw_name = pw_name;
    pw_passwd = pw_passwd;
    pw_uid = user.uid;
    pw_gid = user.gid;
    pw_gecos = pw_gecos;
    pw_dir = pw_dir;
    pw_shell = pw_shell;
  })

-- The status and `*errnop` for what was written; too small a buffer is ERANGE. `write_str` has no
-- panic, so the last clause is not met.
unfoldable pub answer : {A : Type 0} → Outcome TooSmall A × Buffer → Answer A
answer (ok written, buffer) = record {
  status = success;
  errno = 0;
  result = some written;
  bytes = buffer.bytes;
}
answer (err e, buffer) = record {
  status = try_again;
  errno = erange;
  result = none;
  bytes = buffer.bytes;
}
answer (panic, buffer) = record {
  status = try_again;
  errno = erange;
  result = none;
  bytes = buffer.bytes;
}

unfoldable pub fill_passwd_buf : User → (buflen : ℕ) → List ℕ → Answer PasswdStruct
unfolding answer write_passwd
fill_passwd_buf user buflen bytes =
    answer (write_passwd buflen user (record { bytes = bytes; offset = 0 }))
