-- ===== src/Events.antt =====
-- app/events: from an Authentik webhook to the delivery of signed events.
pub mod Mapper
pub mod Pusher
pub mod Outbox
