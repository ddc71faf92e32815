-- ===== src/TableGenerator.antt =====
-- benchexec/tablegenerator: the tables of results.
pub mod Statistics
pub mod Counts
pub mod Merge
pub mod Merged
mod Rows
pub mod StatValue
mod StatOrder
mod StatInfinite
mod StatError
mod StatMedian
mod StatSum
mod StatSummary
pub mod NumberColumn
mod NumberSelected
mod NumberStats
pub mod Differences
pub mod Agreement
mod Selected
mod Tests
mod StatTests
