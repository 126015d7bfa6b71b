-- ===== src/Resilience/Breaker/Invariant.antt =====
-- What holds of a breaker between two calls, and the transitions that a call can make.
use common_system.Prelude.{ℕ, ◌≤◌, ◌<◌, ◌^◌, max, ◌≡◌, ◌⊎◌, List, [], ◌∷◌, arith}
use common_system.Resilience.State.{CircuitState, closed, opened, half_open, CircuitBreakerConfig}
use common_system.Resilience.Breaker.{
  CircuitBreaker, new_breaker, record_success, allow_request, record_failure, get_stats, Call,
  allow, success, failure, stats, call, run_calls,
}

-- The thresholds are values of a `std::size_t`.
pub record Fits (c : CircuitBreakerConfig) : Type 0 where
  pub requests_fit : c.half_open_max_requests < 2 ^ 64
  pub successes_fit : c.success_threshold < 2 ^ 64

-- The counters are zero outside HALF_OPEN. Within, the requests stay within the limit, but that the
-- one which enters the state is let through whatever the limit is, and the successes stay below the
-- threshold that closes the circuit.
pub record IsValid (b : CircuitBreaker) : Type 0 where
  pub idle : (b.state ≡ half_open → ⊥) → (b.consecutive_successes ≡ 0) × (b.half_open_requests ≡ 0)
  pub requests_capped : b.half_open_requests ≤ max 1 b.config.half_open_max_requests
  pub successes_capped :
      (b.consecutive_successes ≡ 0) ⊎ (b.consecutive_successes < b.config.success_threshold)

-- A new breaker is valid.
pub new_breaker-IsValid : (c : CircuitBreakerConfig) (now : ℕ) → IsValid (new_breaker c now)
unfolding new_breaker
new_breaker-IsValid c now = ground arith

-- No call changes the configuration.
pub config-call : (ticks : ℕ) (c : Call) (b : CircuitBreaker) → (call ticks c b).1.config ≡ b.config
unfolding call allow_request record_success record_failure get_stats
config-call ticks (allow t1 t2) b = ground arith
config-call ticks (success t) b = ground arith
config-call ticks (failure t1 t2 t3) b = ground arith
config-call ticks (stats t) b = ground arith

allow-IsValid :
    (ticks t1 t2 : ℕ) (b : CircuitBreaker)
    → Fits b.config
    → IsValid b
    → IsValid (allow_request ticks t1 t2 b).1
unfolding allow_request
allow-IsValid ticks t1 t2 b f v = ground arith

pub record_success-IsValid :
    (t : ℕ) (b : CircuitBreaker) → Fits b.config → IsValid b → IsValid (record_success t b)
unfolding record_success
record_success-IsValid t b f v = ground arith

record_failure-IsValid :
    (ticks t1 t2 t3 : ℕ) (b : CircuitBreaker)
    → IsValid b
    → IsValid (record_failure ticks t1 t2 t3 b)
unfolding record_failure
record_failure-IsValid ticks t1 t2 t3 b v = ground arith

-- Every call keeps the invariant.
pub call-IsValid :
    (ticks : ℕ) (c : Call) (b : CircuitBreaker)
    → Fits b.config
    → IsValid b
    → IsValid (call ticks c b).1
unfolding call get_stats
call-IsValid ticks (allow t1 t2) b f v = allow-IsValid ticks t1 t2 b f v
call-IsValid ticks (success t) b f v = record_success-IsValid t b f v
call-IsValid ticks (failure t1 t2 t3) b f v = record_failure-IsValid ticks t1 t2 t3 b v
call-IsValid ticks (stats t) b f v = ground arith

run_calls-IsValid_from :
    (ticks : ℕ) (calls : List Call) (b : CircuitBreaker)
    → Fits b.config
    → IsValid b
    → IsValid (run_calls ticks calls b)
unfolding run_calls
run_calls-IsValid_from ticks [] b f v = v
run_calls-IsValid_from ticks (c ∷ calls) b f v =
    run_calls-IsValid_from ticks calls (call ticks c b).1 (ground (arith, config-call ticks c b))
      (call-IsValid ticks c b f v)

-- Whatever calls a breaker has had, from whatever threads and in whatever order, it is valid.
pub run_calls-IsValid :
    (ticks : ℕ) (calls : List Call) (c : CircuitBreakerConfig) (now : ℕ)
    → Fits c
    → IsValid (run_calls ticks calls (new_breaker c now))
run_calls-IsValid ticks calls c now f =
    run_calls-IsValid_from ticks calls (new_breaker c now) (unfold new_breaker in f)
      (new_breaker-IsValid c now)

-- The transitions that circuit_state.h documents, and staying put.
pub data Transition : CircuitState → CircuitState → Type 0 where
  stay : {s : CircuitState} → Transition s s
  trip : Transition closed opened
  probe : Transition opened half_open
  recover : Transition half_open closed
  relapse : Transition half_open opened

-- A call moves the state along a documented transition or leaves it.
pub call-Transition :
    (ticks : ℕ) (c : Call) (b : CircuitBreaker) → Transition b.state (call ticks c b).1.state
unfolding call allow_request record_success record_failure get_stats
call-Transition ticks (allow t1 t2) b = grind (arith, stay, probe)
call-Transition ticks (success t) b = grind (arith, stay, recover)
call-Transition ticks (failure t1 t2 t3) b = grind (arith, stay, trip, relapse)
call-Transition ticks (stats t) b = stay
