-- ===== src/Tests.antt =====
-- A platform that runs, and the theorems at concrete inputs.
mod Codec
mod Node
mod Hashing
mod Names
mod Transactions
mod Wallets
mod Pages
mod Templates
mod Events
mod Turns
mod Saved
