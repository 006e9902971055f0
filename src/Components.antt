-- ===== src/Components.antt =====
-- The components of frontend/src/components.
pub mod DomainCreator
pub mod TransactionSigner
pub mod WalletManager
