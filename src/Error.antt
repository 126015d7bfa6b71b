-- ===== src/Error.antt =====
-- include/kcenon/common/error/error_codes.h.
pub mod Codes
pub mod Messages
pub mod Ranges
