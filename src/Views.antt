-- ===== src/Views.antt =====
-- The handlers of frontend/src/views.
pub mod WalletPage
pub mod Commit
pub mod Sync
pub mod Home
pub mod Names
pub mod Life
pub mod Rows
pub mod Offered
pub mod Turns
pub mod Kept
pub mod Events
