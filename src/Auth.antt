-- ===== src/Auth.antt =====
-- Staff accounts: sessions, single-use tokens, sign-in, passwords and invitations (backend/src/auth).
pub mod Store
pub mod Tokens
pub mod Sessions
pub mod Accounts
pub mod Invites
pub mod Requests
pub mod Expiry
pub mod Renewed
pub mod Keeping
pub mod Kept
pub mod Capped
pub mod SingleUse
pub mod Passwords
pub mod Guards
