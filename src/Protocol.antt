-- ===== src/Protocol.antt =====
-- The wire format of protocol version 1 (rust/src/protocol.rs).
pub mod Version
pub mod ResultCode
pub mod Layout
pub mod Flags
pub mod Pins
pub mod Status
pub mod Info
pub mod Config
pub mod Output
