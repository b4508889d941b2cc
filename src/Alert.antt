-- ===== src/Alert.antt =====
-- bridge/internal/alert: alerts with a cooldown and a set of active conditions.
pub mod Manager
pub mod Rules
