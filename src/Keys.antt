-- ===== src/Keys.antt =====
-- internal/keys/keys.go: the key store, its tables and its operations.
pub mod Tables
pub mod Sql
pub mod Secret
pub mod Store
pub mod Migrate
pub mod Upgrade
pub mod Atomic
pub mod Changes
pub mod Run
pub mod Rows
pub mod Ceiling
pub mod Revocation
pub mod Access
pub mod Holding
pub mod Ownership
pub mod Live
pub mod Sound
pub mod Listing
mod Tests
