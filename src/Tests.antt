-- ===== src/Tests.antt =====
-- The theorems of the library at concrete values.
mod Codec
mod Boards
mod Watching
mod Running
mod Nodes
mod Buses
