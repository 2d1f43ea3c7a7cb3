-- ===== src/Tracing.antt =====
-- internal/tracing: the request ids of request_id.go, and the hexadecimal text they are in.
pub mod Hex
pub mod RequestId
pub mod Identified
