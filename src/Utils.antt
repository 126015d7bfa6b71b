-- ===== src/Utils.antt =====
-- include/kcenon/common/utils: the circular buffers, the object pool and the
-- texts of enumerations.
mod Ring
pub mod CircularBuffer
pub mod Spsc
pub mod ObjectPool
pub mod Enums
