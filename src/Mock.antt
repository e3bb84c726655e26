-- ===== src/Mock.antt =====
-- web/src/mocks: the API that the browser mocks, a full implementation of the contract in memory.
pub mod Db
pub mod Random
pub mod Log
pub mod Sessions
pub mod Http
pub mod Tenants
pub mod ApiKeys
pub mod Hooks
pub mod Modules
pub mod Bindings
pub mod Server
pub mod Seed
