-- ===== src/Form.antt =====
-- web/src/features: the forms of the consoles, from entities to form values and on to requests.
pub mod Tenant
pub mod Config
pub mod StringList
pub mod Hook
