-- ===== src/Source/Correlation.antt =====
-- bridge/internal/source/alert_correlation.go: the raw alert words of a Modbus snapshot, and the
-- worker that compares them with the clouds.
pub mod Signature
pub mod Worker
pub mod Gate
pub mod Evidence
pub mod Published
mod Examples
