-- ===== src/Source.antt =====
-- bridge/internal/source: how several sources of one plant become one.
pub mod Priority
pub mod Enriched
pub mod Correlation
pub mod Validation
mod Examples
