-- ===== src/Model.antt =====
-- benchexec/model.py: the runs of a benchmark and their results.
pub mod Status
pub mod Violations
pub mod Crashes
pub mod Answered
pub mod TaskDefinition
pub mod Verdicts
pub mod Filters
pub mod Limits
pub mod Limited
pub mod Requirements
mod Tests
