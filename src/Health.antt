-- ===== src/Health.antt =====
-- include/kcenon/common/interfaces/monitoring: health checks, their composition and the graph of
-- their dependencies.
pub mod Status
pub mod Composite
pub mod Graph
