-- ===== src/Tests.antt =====
-- Runs on concrete inputs, and the theorems applied to them.
pub mod Hex
pub mod Texts
pub mod Stores
pub mod Wallets
pub mod Passkeys
pub mod Seeds
pub mod Browsers
pub mod Recoveries
pub mod Snapshots
pub mod Storages
pub mod Tokens
pub mod Miners
