-- ===== src/Contract.antt =====
-- The contract of the API, as the console's types state it, and the zod schemas that read the API's answers.
pub mod Shape
pub mod Zod
pub mod Schemas
pub mod Codecs
pub mod Checks
pub mod Operations
pub mod Paths
pub mod Encode
