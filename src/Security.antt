-- ===== src/Security.antt =====
-- app/security: the checks on receiver endpoints.
pub mod Address
pub mod Url
pub mod Log
