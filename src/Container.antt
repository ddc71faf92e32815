-- ===== src/Container.antt =====
-- The file-system view of a container: benchexec/container.py, and the directory modes of
-- benchexec/containerexecutor.py. A path is the list of its bytes.
pub mod Modes
pub mod Options
pub mod Below
pub mod Last
pub mod Deepest
pub mod Steps
pub mod Accepted
pub mod MountTable
pub mod Decoded
mod Tests
