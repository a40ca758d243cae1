-- ===== src/Tests.antt =====
-- Concrete accounts, limiters, tokens and messages, and the theorems at them.
mod Accounts
mod Sharing
mod Sessions
mod Tokens
mod Worlds
mod Interleaved
mod Pending
mod Boot
mod Messages
mod Lifecycles
