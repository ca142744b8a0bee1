-- ===== src/Protocol/Version.antt =====
-- The protocol version of rust/src/protocol.rs.
use hidpin.Base.{ℕ}

abbrev pub protocol_version : ℕ
protocol_version = 1
