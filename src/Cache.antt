-- ===== src/Cache.antt =====
-- src/cache.rs
pub mod State
pub mod Open
pub mod Hardening
pub mod Queries
pub mod Updates
pub mod Select
pub mod Executes
pub mod RoundTrip
pub mod Purge
pub mod Holder
pub mod Book
pub mod UserTable
pub mod Look
pub mod Refinement
pub mod Stability
pub mod Races
pub mod Slots
pub mod Placement
pub mod GroupTable
pub mod Members
pub mod Membership
pub mod StoreGroup
