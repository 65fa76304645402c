-- ===== src/Auth.antt =====
-- Users, passwords, one-time codes and tokens (app/auth).
pub mod Models
pub mod Codes
pub mod Accounts
pub mod Sessions
pub mod Requests
pub mod SingleUse
pub mod Tokens
pub mod Frame
pub mod Unique
pub mod Lockout
pub mod Recovery
pub mod Identity
