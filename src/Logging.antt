-- ===== src/Logging.antt =====
-- include/kcenon/common/interfaces: the audit log of the registries and the registry of loggers.
pub mod Audit
pub mod Registry
