-- ===== src/Lib.antt =====
-- sssd-oidc: POSIX users and groups from a SCIM directory, for NSS and PAM.
--
-- The NSS module (crates/nss_oidc) and the PAM module (crates/pam_oidc) call a service
-- (src/service.rs). The service asks a SCIM server (src/scim.rs), gives every external id a UID or
-- GID by hashing and probing (src/mapping.rs), keeps what it found in an SQLite cache
-- (src/cache.rs) and answers from the cache when the server does not.
--
-- Files and what they model:
--   Mapping     src/mapping.rs: id_to_uid, resolve_id
--   Model       src/model.rs: User, Group
--   Database    src/cache.rs: the tables, and each SQL statement as a function on them
--   Cache       src/cache.rs: the methods of Cache; State, Open, Queries (reads),
--               Updates (writes)
--   Scim        src/scim.rs: the resources, escape_filter_value and the methods of ScimClient
--   Config      src/config.rs: the configuration records and their defaults; Load for load_from and
--               the checks of the token file
--   Logging     src/logging.rs: init, parse_level and what on_event sends to syslog
--   Startup     crates/nss_oidc/src/state.rs, crates/pam_oidc/src/state.rs: the singletons
--   Service     src/service.rs: the methods of Service; Invariant is the interface of a property that
--               its methods keep, and Ranges, Placement and SameGid are instances
--   Nss         crates/nss_oidc/src: passwd.rs (Buffer), group.rs (GroupBuffer) and ffi.rs
--               (InitGroups, Enumeration of users, GroupEnumeration)
--   Oidc        src/oidc.rs: discovery, the device flow, validate_id_token
--   Pam         crates/pam_oidc/src: ffi.rs and pam_conv.rs, as on Linux
--   Text        str and String as UTF-8 bytes
--   Files       what the code uses of the operating system's files
--   Outcome     Result with panics; Exec adds the state that a method changes
--   Tests       runs on concrete inputs
--
-- A function that returns Result is one into Outcome (ok, err, panic). A method that changes the
-- cache is an action `S -> Outcome E A x S`: what was written before an error stays written.
--
-- Bounds: u32 arithmetic wraps, as in a release build; theorems on the mapping assume a range that
-- fits u32 and has at most 2^31 ids, beyond which the sum in the probe wraps. The probe loop runs at
-- most range_size rounds and the pagination loop at most 1000, so both are structural recursions on
-- the rounds that are left and need no other fuel. The polling loop of the device flow has no bound of
-- its own and runs on fuel; one round takes at least five seconds, so one more round than the device
-- code has seconds to live is enough.
--
-- Parameters: murmur3_32; the HTTP agent, percent encoding and JSON decoding (Scim.Http); SQLite
-- (Database.Engine: what the clock reads at a statement, whether a statement fails, the order of
-- rows without ORDER BY, whether foreign keys are enforced); the clock, sleeping, and the HTTP and
-- JSON calls of the device flow (Oidc.Host), jsonwebtoken (Oidc.Jwt, and what it documents in
-- Oidc.Vouched), libpam (Pam.PamHandle); files (Files.Files, and a file that nobody else changes in
-- Cache.Hardening), SQLite's connections (Cache.Open.Sqlite) and the TOML decoder.
--
-- Not modelled: HTTP timeouts and TLS, the filtering of log events by tracing, freeing what the PAM
-- conversation answers, other processes that change the cache file while a service runs
-- (Cache.Races interleaves the statements of two),
-- crates/mock-idp and the tests.
pub mod Prelude
pub mod Text
pub mod Outcome
pub mod Exec
pub mod Mapping
pub mod Model
pub mod Database
pub mod Cache
pub mod Files
pub mod Config
pub mod Logging
pub mod Scim
pub mod Service
pub mod Nss
pub mod Oidc
pub mod Startup
pub mod Pam
pub mod Tests
