-- ===== src/Bios.antt =====
-- client/dcs_copilot/dcs: the DCS-BIOS address space and the incremental parser that fills it.
pub mod State
pub mod Parser
mod Examples
