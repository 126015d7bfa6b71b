-- ===== src/Resilience.antt =====
-- include/kcenon/common/resilience: the circuit breaker and the sliding failure window.
-- Both classes hold a mutex for the whole of each method, so a method is one step and a sequence
-- of calls is any interleaving of the threads. `clock_type::now()` is not under this repository:
-- every method takes the readings that it makes, in the order in which it makes them, as
-- arguments. A reading counts ticks of the clock, `ticks_per_ms` of them to a millisecond.
pub mod State
pub mod Window
pub mod Breaker
