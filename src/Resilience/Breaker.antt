-- ===== src/Resilience/Breaker.antt =====
-- circuit_breaker.h: the three states, the counters, and every public method.
pub mod Invariant
pub mod Opening
pub mod Recovery
pub mod Guarded
use common_system.Prelude.{
  ℕ, ◌+◌, ◌-◌, ◌/◌, ◌%◌, ◌^◌, Bool, true, false, Option, none, some, List, [], ◌∷◌, ltb, leb,
  if◌then◌else◌,
}
use common_system.Resilience.State.{CircuitState, closed, opened, half_open, CircuitBreakerConfig}
use common_system.Resilience.Window
use common_system.Resilience.Window.{FailureWindow}

pub record CircuitBreaker : Type 0 where
  pub config : CircuitBreakerConfig
  pub state : CircuitState
  pub failure_window : FailureWindow
  pub consecutive_successes : ℕ
  pub half_open_requests : ℕ
  pub last_state_change : ℕ

unfoldable pub new_breaker : CircuitBreakerConfig → ℕ → CircuitBreaker
new_breaker config now = record {
  config = config;
  state = closed;
  failure_window = Window.new_window config.failure_window;
  consecutive_successes = 0;
  half_open_requests = 0;
  last_state_change = now;
}

-- `++` on a `std::size_t`.
abbrev pub increment : ℕ → ℕ
increment n = (n + 1) % 2 ^ 64

unfoldable pub transition_to_closed : ℕ → CircuitBreaker → CircuitBreaker
transition_to_closed now b = record b {
  state = closed;
  failure_window = Window.reset b.failure_window;
  consecutive_successes = 0;
  half_open_requests = 0;
  last_state_change = now;
}

unfoldable pub transition_to_open : ℕ → CircuitBreaker → CircuitBreaker
transition_to_open now b = record b {
  state = opened;
  consecutive_successes = 0;
  half_open_requests = 0;
  last_state_change = now;
}

unfoldable pub transition_to_half_open : ℕ → CircuitBreaker → CircuitBreaker
transition_to_half_open now b = record b {
  state = half_open;
  consecutive_successes = 0;
  half_open_requests = 0;
  last_state_change = now;
}

abbrev count_request : CircuitBreaker → CircuitBreaker
count_request b = record b { half_open_requests = increment b.half_open_requests }

-- The first `if` of the body; `now` is the reading of `transition_to_closed`.
unfoldable pub record_success : ℕ → CircuitBreaker → CircuitBreaker
unfolding transition_to_closed
record_success now b = elim b.state [
  | half_open ↦
      let b' = record b { consecutive_successes = increment b.consecutive_successes } in
      if leb b.config.success_threshold b'.consecutive_successes
      then transition_to_closed now b'
      else b'
  | _ ↦ b
]

-- The nested class `guard`: the breaker that it refers to is passed beside it.
pub record Guard : Type 0 where
  pub committed : Bool

unfoldable pub make_guard : Guard
make_guard = record { committed = false }

unfoldable pub guard_success : ℕ → Guard × CircuitBreaker → Guard × CircuitBreaker
guard_success now (g, b) = (record g { committed = true }, record_success now b)

module _ (ticks_per_ms : ℕ) where
  -- A steady clock is never behind `last_state_change_`, where the signed difference is this one.
  unfoldable pub should_attempt_reset : ℕ → CircuitBreaker → Bool
  should_attempt_reset now b = leb b.config.timeout ((now - b.last_state_change) / ticks_per_ms)

  -- `t1` is read by `should_attempt_reset`, `t2` by the transition.
  unfoldable pub allow_request : ℕ → ℕ → CircuitBreaker → Bool × CircuitBreaker
  unfolding should_attempt_reset transition_to_half_open
  allow_request t1 t2 b = elim b.state [
    | closed ↦ (true, b)
    | opened ↦
        if should_attempt_reset t1 b
        then (true, count_request (transition_to_half_open t2 b))
        else (false, b)
    | half_open ↦
        if ltb b.half_open_requests b.config.half_open_max_requests
        then (true, count_request b)
        else (false, b)
  ]

  -- `t1` stamps the failure, `t2` prunes the window (only a closed circuit counts it), and `t3` is
  -- read by the transition.
  unfoldable pub record_failure : ℕ → ℕ → ℕ → CircuitBreaker → CircuitBreaker
  unfolding transition_to_open
  record_failure t1 t2 t3 b =
      let b' = record b { failure_window = Window.record_failure t1 b.failure_window } in
      elim b.state [
        | half_open ↦ transition_to_open t3 b'
        | closed ↦
            let (n, w) = Window.get_failure_count ticks_per_ms t2 b'.failure_window in
            let b'' = record b' { failure_window = w } in
            if leb b.config.failure_threshold n then transition_to_open t3 b'' else b''
        | opened ↦ b'
      ]

  -- `get_stats` prunes the window too; what it reports besides are fields as they stand.
  unfoldable pub get_stats : ℕ → CircuitBreaker → ℕ × CircuitBreaker
  get_stats now b =
      let (n, w) = Window.get_failure_count ticks_per_ms now b.failure_window in
      (n, record b { failure_window = w })

  -- ~guard()
  unfoldable pub end_guard : ℕ → ℕ → ℕ → Guard → CircuitBreaker → CircuitBreaker
  end_guard t1 t2 t3 g b = if g.committed then b else record_failure t1 t2 t3 b

-- One call of a breaker with its clock readings.
pub data Call : Type 0 where
  allow : ℕ → ℕ → Call
  success : ℕ → Call
  failure : ℕ → ℕ → ℕ → Call
  stats : ℕ → Call

-- The state after a call, and what `allow_request` answers.
unfoldable pub call : ℕ → Call → CircuitBreaker → Option Bool × CircuitBreaker
call ticks (allow t1 t2) b = let (ok, b') = allow_request ticks t1 t2 b in (some ok, b')
call ticks (success t) b = (none, record_success t b)
call ticks (failure t1 t2 t3) b = (none, record_failure ticks t1 t2 t3 b)
call ticks (stats t) b = let (n, b') = get_stats ticks t b in (none, b')

unfoldable pub run_calls : ℕ → List Call → CircuitBreaker → CircuitBreaker
run_calls ticks [] b = b
run_calls ticks (c ∷ calls) b = run_calls ticks calls (call ticks c b).1
