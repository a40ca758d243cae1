-- ===== src/Auth.antt =====
-- internal/auth: the key store, the JWT claims, and the two ways to authenticate.
pub mod KeyStore
pub mod Claims
pub mod Acceptance
pub mod Verify
