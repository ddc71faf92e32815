-- ===== src/Resources.antt =====
-- benchexec/resources.py: which CPU cores and memory banks each of the parallel runs may use.
pub mod Machine
pub mod HyperThreading
pub mod Plan
pub mod Assignment
pub mod Collected
pub mod Planned
mod OneEach
pub mod Valid
pub mod Separated
pub mod Memory
pub mod Kernel
mod Tests
