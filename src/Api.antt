-- ===== src/Api.antt =====
-- web/src/shared/api: the tokens of the two consoles, and the client of the API.
pub mod Session
pub mod Client
