-- ===== src/Utils.antt =====
-- The helpers of frontend/src/utils.
pub mod Hex
pub mod Hash
pub mod Regex
pub mod Validation
pub mod LocalStorage
pub mod DomainStorage
