-- ===== src/Aircraft.antt =====
-- cloud/dcs_copilot_cloud/state: the normalized aircraft state and the history of its changes.
pub mod Value
pub mod State
pub mod History
pub mod Phase
mod Examples
