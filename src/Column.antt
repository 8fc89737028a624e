-- ===== src/Column.antt =====
-- src/types/column: the columns of a block.
pub mod StringPool
pub mod Memory
pub mod Data
pub mod TypeName
pub mod DecimalName
pub mod Branch
pub mod Load
pub mod Concat
pub mod FixedPush
pub mod Values
pub mod StoredTests
mod Tests
