-- ===== src/Services.antt =====
-- The services of frontend/src/services.
pub mod Transaction
pub mod Crypto
pub mod Api
pub mod Wallet
