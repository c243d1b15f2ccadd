-- ===== src/Routes.antt =====
-- app/routes: the handlers of the HTTP API, over the components that they compose.
pub mod Webhook
pub mod Streams
pub mod AppleScim
pub mod Root
