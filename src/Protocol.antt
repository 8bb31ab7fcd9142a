-- ===== src/Protocol.antt =====
-- shared/dcs_copilot_protocol: the wire schema that client and cloud share.
pub mod Telemetry
pub mod Checks
pub mod Json
pub mod Message
pub mod Media
mod Examples
