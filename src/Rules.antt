-- ===== src/Rules.antt =====
-- cloud/dcs_copilot_cloud/rules: contracts, declarative conditions and the rule engine.
pub mod Base
pub mod Condition
pub mod Engine
mod Examples
