-- ===== src/Nss/Reachable.antt =====
-- The states that crates/nss_oidc goes through: the calls of its entry points, in any order, each
-- with what SQLite and the SCIM server then do.
use sssd_oidc.Prelude.{ℕ, ◌≡◌, Bool, List, Option}
use sssd_oidc.Text.{Str}
use sssd_oidc.Database.{Engine}
use sssd_oidc.Scim.{Http}
use sssd_oidc.Service.{Service}
use sssd_oidc.Service.Invariant.{IsInvariant}
use sssd_oidc.Nss.{NssState, NssStatus, returns}
use sssd_oidc.Nss.Enumeration.{UserEnum, by_name, by_uid, setpwent}
use sssd_oidc.Nss.GroupBuffer.{GroupEnum, group_by_c_name, by_gid}
use sssd_oidc.Nss.GroupEnumeration.{setgrent}
use sssd_oidc.Nss.InitGroups.{Groups, initgroups_dyn}
use sssd_oidc.Nss.KeepsLookups.{
  Holds, by_name-Holds, by_uid-Holds, group_by_c_name-Holds, by_gid-Holds, initgroups_dyn-Holds,
}
use sssd_oidc.Nss.KeepsEnumeration.{setpwent-Holds, setgrent-Holds}

module _ (murmur3_32 : Str → ℕ → Option ℕ) (to_str : Str → Option Str) where
  -- What a call of an entry point that uses the service makes of the state.
  pub data Step (engine : Engine) (server : Http) : Option NssState → Option NssState → Type 0 where
    getpwnam :
        (name : Str) (buflen : ℕ) (bytes : List ℕ) {s : Option NssState}
        → Step engine server s (by_name engine murmur3_32 server to_str name buflen bytes s).1
    getpwuid :
        (uid buflen : ℕ) (bytes : List ℕ) {s : Option NssState}
        → Step engine server s (by_uid engine murmur3_32 server uid buflen bytes s).1
    getgrnam :
        (name : Str) (base buflen : ℕ) (bytes : List ℕ) {s : Option NssState}
        → Step engine server s
            (group_by_c_name engine murmur3_32 server to_str name base buflen bytes s).1
    getgrgid :
        (gid base buflen : ℕ) (bytes : List ℕ) {s : Option NssState}
        → Step engine server s (by_gid engine murmur3_32 server gid base buflen bytes s).1
    initgroups :
        (user : Str) (group cur_size : ℕ) (filled : Groups) {s : Option NssState}
        → Step engine server s
            (initgroups_dyn engine murmur3_32 server to_str user group cur_size filled s).1
    lists_users :
        (e e' : UserEnum) (status : NssStatus) {s s' : Option NssState}
        → setpwent engine murmur3_32 server e s ≡ returns (status, e', s')
        → Step engine server s s'
    lists_groups :
        (e e' : GroupEnum) (status : NssStatus) {s s' : Option NssState}
        → setgrent engine murmur3_32 server e s ≡ returns (status, e', s')
        → Step engine server s s'

  module _ (engine : Engine) (server : Http) (P : Service → Type 0)
      (invariant : IsInvariant engine murmur3_32 P) where
    Step-Holds : (s s' : Option NssState) → Step engine server s s' → Holds P s → Holds P s'
    Step-Holds s _ (getpwnam name buflen bytes) h =
        by_name-Holds P invariant server to_str name buflen bytes s h
    Step-Holds s _ (getpwuid uid buflen bytes) h =
        by_uid-Holds P invariant uid buflen bytes server s h
    Step-Holds s _ (getgrnam name base buflen bytes) h =
        group_by_c_name-Holds P invariant server to_str name base buflen bytes s h
    Step-Holds s _ (getgrgid gid base buflen bytes) h =
        by_gid-Holds P invariant gid base buflen bytes server s h
    Step-Holds s _ (initgroups user group cur_size filled) h =
        initgroups_dyn-Holds P invariant server to_str user group cur_size filled s h
    Step-Holds s s' (lists_users _ _ _ e) h = setpwent-Holds P invariant server _ _ _ s s' e h
    Step-Holds s s' (lists_groups _ _ _ e) h = setgrent-Holds P invariant server _ _ _ s s' e h

  -- Calls one after the other, each with its own engine and server; foreign keys stay enforced or not.
  pub data Reachable (foreign_keys : Bool) (s : Option NssState) : Option NssState → Type 1 where
    start : Reachable foreign_keys s s
    call :
        (engine : Engine) (server : Http) {s' s'' : Option NssState}
        → engine.foreign_keys ≡ foreign_keys
        → Reachable foreign_keys s s'
        → Step engine server s' s''
        → Reachable foreign_keys s s''

  -- What every engine with these foreign keys keeps holds of every state that is reached.
  pub Reachable-Holds :
      (P : Service → Type 0) (foreign_keys : Bool)
      → ((engine : Engine) → engine.foreign_keys ≡ foreign_keys → IsInvariant engine murmur3_32 P)
      → (s s' : Option NssState) → Reachable foreign_keys s s'
      → Holds P s
      → Holds P s'
  Reachable-Holds P foreign_keys invariant s _ start h = h
  Reachable-Holds P foreign_keys invariant s s'' (call engine server {s' = s'} enforced before step)
        h =
      Step-Holds engine server P (invariant engine enforced) s' s'' step
        (Reachable-Holds P foreign_keys invariant s s' before h)
