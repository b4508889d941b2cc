-- ===== src/Modbus/Decode.antt =====
-- bridge/internal/source/modbus/decode.go, bms.go and the decoder of
-- metadata.go.
pub mod Words
pub mod Gates
pub mod Scalars
pub mod Powers
pub mod Counters
pub mod Metadata
pub mod Coherence
pub mod Domains
mod Examples
