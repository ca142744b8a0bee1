-- ===== src/Watch.antt =====
-- The Watch layer (rust/src/watch.rs): what keeps one device connected for a long-running program.
pub mod Events
pub mod Clock
pub mod Loop
pub mod Levels
pub mod Connect
pub mod Runs
pub mod Runtime
