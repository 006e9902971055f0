-- ===== src/Composables.antt =====
-- The shared state of frontend/src/composables.
pub mod UseTransaction
pub mod UseWallet
