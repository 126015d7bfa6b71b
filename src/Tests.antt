-- ===== src/Tests.antt =====
-- Runs of the definitions on concrete inputs, and each property at one input.
mod Resilience
mod Utils
mod Result
mod Di
mod Health
mod Checks
mod Lifecycle
mod Patterns
mod Config
