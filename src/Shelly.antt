-- ===== src/Shelly.antt =====
-- bridge/internal/source/shelly: two meters of the grid, read over HTTP.
pub mod Rpc
pub mod Meter
pub mod Apart
mod Examples
