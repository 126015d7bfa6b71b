-- ===== src/Patterns.antt =====
-- The event bus (patterns/event_bus.h).
pub mod EventBus
