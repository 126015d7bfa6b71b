-- ===== src/Result.antt =====
-- include/kcenon/common/patterns/result: Result<T>, its factories and the conversion of exceptions.
pub mod Core
pub mod Catch
pub mod Laws
