-- ===== src/HomeAssistant.antt =====
-- bridge/internal/hamqtt: the state that is published for Home Assistant.
pub mod Ids
pub mod Streams
mod Examples
