-- ===== src/Jinko.antt =====
-- bridge/internal/source/jinko: the cloud of the inverter's maker.
pub mod Schema
pub mod Text
pub mod Numbers
pub mod Metadata
pub mod Parser
mod Examples
