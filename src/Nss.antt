-- ===== src/Nss.antt =====
-- crates/nss_oidc: what glibc's name service calls.
-- Memory that the caller lends is a list of bytes; a pointer into it is an offset.
pub mod Buffer
pub mod Layout
pub mod Passwd
pub mod InitGroups
pub mod Members
pub mod Enumeration
pub mod GroupBuffer
pub mod Pointers
pub mod GroupLayout
pub mod GroupReads
pub mod GroupEnumeration
pub mod GroupOrder
pub mod GroupListing
pub mod Lookup
pub mod KeepsLookups
pub mod KeepsEnumeration
pub mod Reachable
pub mod Stability
pub mod GroupStability
pub mod Listing
pub mod ListingUids
pub mod GroupListingGids
pub mod Order
use sssd_oidc.Prelude.{ℕ, Bool, true, false, List, [], ◌∷◌, Option, none, some}
use sssd_oidc.Text.{Str}
use sssd_oidc.Service.{Service}
use sssd_oidc.Scim.{ScimClient}

pub data NssStatus : Type 0 where
  try_again unavail not_found success : NssStatus

-- libc's ERANGE on Linux
abbrev pub erange : ℕ
erange = 34

-- `get_state()`: a service behind a mutex, which is poisoned if a holder of it has panicked.
pub record NssState : Type 0 where
  pub scim : ScimClient
  pub service : Service
  pub poisoned : Bool

-- The answer of a lookup: the status, `*errnop`, the struct if it was written, and the buffer. A
-- panic cannot leave an `extern "C"` function: it aborts the process.
pub data Call (A : Type 0) : Type 0 where
  returns : A → Call A
  aborts : Call A

pub record Answer (A : Type 0) : Type 0 where
  pub status : NssStatus
  pub errno : ℕ
  pub result : Option A
  pub bytes : List ℕ

-- `*errnop = 0; return status`
abbrev pub refuse : {A : Type 0} → NssStatus → List ℕ → Answer A
refuse status bytes = record { status = status; errno = 0; result = none; bytes = bytes }
