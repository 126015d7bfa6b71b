-- ===== src/Config.antt =====
-- Configuration (config/).
pub mod CliParser
pub mod UnifiedConfig
pub mod Overrides
pub mod Double
pub mod Validation
