-- ===== src/Tests.antt =====
-- Concrete inputs for the theorems, and runs of the definitions.
pub mod Fixtures
pub mod Daemon
pub mod Counters
pub mod Values
pub mod Actions
pub mod Boot
pub mod Network
pub mod Files
pub mod Cleanup
pub mod Writes
pub mod Load
pub mod Processes
pub mod Threads
