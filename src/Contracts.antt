-- ===== src/Contracts.antt =====
-- The contracts feature, internal/features/contracts: its tables, the repository's transactions
-- over them, and what they keep.
pub mod Model
pub mod Guards
pub mod Items
pub mod Members
pub mod Create
pub mod Edits
pub mod Lifecycle
pub mod PayoutTable
pub mod History
pub mod Sound
pub mod Consistent
pub mod Once
pub mod Sweep
pub mod Accounts
mod Tests
pub mod Terminal
