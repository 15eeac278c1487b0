-- ===== src/Collector.antt =====
-- The log collector: tools/log-collector/log_collector.go and helper.go.
pub mod Host
pub mod Archive
pub mod Labels
pub mod Redaction
pub mod Filters
pub mod Writer
pub mod Gather
