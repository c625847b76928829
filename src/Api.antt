-- ===== src/Api.antt =====
-- src/api: the handlers of the HTTP API.
pub mod Auth
