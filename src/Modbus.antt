-- ===== src/Modbus.antt =====
-- bridge/internal/source/modbus: the locked, read-only Solarman V5 profile.
pub mod Profile
pub mod Bytes
pub mod Protocol
pub mod Transport
pub mod Decode
pub mod Client
mod Examples
