-- ===== src/Tests.antt =====
-- The theorems at concrete inputs, on the setting of `Setting`.
pub mod Setting
pub mod Tables
pub mod Delivery
pub mod Receivers
pub mod Requests
pub mod Tokens
pub mod Sync
pub mod Start
pub mod Process
pub mod Pipeline
pub mod Logs
pub mod Keys
