-- ===== src/Nss/Lookup.antt =====
-- Lookups through crates/nss_oidc, from the call to what C reads.
use sssd_oidc.Service.{Service}
