-- ===== src/Entity.antt =====
-- web/src/entities: the types that the consoles and the mock API share. Optional fields that may
-- be null or missing (`nullish`) are `Option`; numbers that the schemas declare as integers are ℤ.
pub mod Hook
pub mod Module
pub mod Format
pub mod Tenant
pub mod ApiKey
pub mod Invocation
