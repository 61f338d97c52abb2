-- ===== src/Supply.antt =====
-- The supply feature, internal/features/supply: its tables, the repository's transactions over
-- them, and what they keep.
pub mod Model
pub mod Guards
pub mod Edits
pub mod Items
pub mod Members
pub mod History
pub mod Balanced
pub mod Invariant
pub mod Limit
pub mod Ended
pub mod Announced
pub mod Reads
pub mod Totals
pub mod Paging
pub mod Complete
pub mod Forged
mod Tests
