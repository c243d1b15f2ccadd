-- ===== src/Scim.antt =====
-- app/scim: the synchronisation of Authentik's users to Apple SCIM.
pub mod Token
pub mod Http
pub mod Identity
pub mod Pages
pub mod Listing
pub mod Lookup
pub mod Preflight
pub mod Diff
pub mod Update
pub mod Run
pub mod Reconcile
pub mod Conflict
pub mod Sync
pub mod Authentik
pub mod Coordination
pub mod Url
pub mod Users
