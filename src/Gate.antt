-- ===== src/Gate.antt =====
-- The sessions of the two consoles: web/src/features/console-session and web/src/shared/lib/jwt.ts.
pub mod Jwt
pub mod Fragment
pub mod Errors
pub mod Sign
pub mod Expiry
pub mod Session
