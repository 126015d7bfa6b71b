-- ===== src/Resilience/State.antt =====
-- circuit_state.h and circuit_breaker_config.h. `opened` is OPEN, whose spelling is reserved here.
use common_system.Prelude.{ℕ, String}

pub data CircuitState : Type 0 where
  closed opened half_open : CircuitState

pub to_string : CircuitState → String
to_string closed = "CLOSED"
to_string opened = "OPEN"
to_string half_open = "HALF_OPEN"

-- Durations are milliseconds.
pub record CircuitBreakerConfig : Type 0 where
  pub failure_threshold : ℕ
  pub success_threshold : ℕ
  pub failure_window : ℕ
  pub timeout : ℕ
  pub half_open_max_requests : ℕ

abbrev pub default_config : CircuitBreakerConfig
default_config = record {
  failure_threshold = 5;
  success_threshold = 2;
  failure_window = 60000;
  timeout = 30000;
  half_open_max_requests = 3;
}
