-- ===== src/Bootstrap.antt =====
-- include/kcenon/common/bootstrap: the bootstrapper over the logger registry and the container.
pub mod System
