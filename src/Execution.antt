-- ===== src/Execution.antt =====
-- The execution of a run: benchexec/runexecutor.py, benchexec/oomhandler.py and
-- benchexec/filehierarchylimit.py.
pub mod Arguments
pub mod Accepted
pub mod Timer
pub mod TimerLaws
pub mod Limiters
pub mod Events
pub mod FirstReason
pub mod Noticed
pub mod Refined
pub mod Recorded
pub mod Judged
pub mod Scanned
pub mod Measurements
pub mod Measured
mod Tests
