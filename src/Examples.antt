-- ===== src/Examples.antt =====
-- The theorems at concrete requests to the mock API in its initial state.
pub mod Data
pub mod Tenants
pub mod Hooks
pub mod Bindings
pub mod Server
pub mod Api
pub mod Config
pub mod Contract
pub mod Console
pub mod Log
pub mod Dialogs
