-- ===== src/Di.antt =====
-- include/kcenon/common/di: the service container and its scopes, and the bootstrapper over it.
pub mod Container
pub mod Bootstrapper
