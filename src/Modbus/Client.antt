-- ===== src/Modbus/Client.antt =====
-- bridge/internal/source/modbus/client.go and metadata.go: a fetch as a whole.
pub mod Program
pub mod Readings
pub mod Metrics
pub mod Fetch
pub mod Keeps
pub mod Sends
pub mod Cache
mod Examples
