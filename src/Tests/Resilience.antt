-- ===== src/Tests/Resilience.antt =====
-- The circuit breaker on concrete runs.
use common_system.Prelude.{◌≤◌, ◌<◌, ◌≡◌, ◌⊎◌, refl, List, [], ◌∷◌, arith, min, ◌+◌, ◌-◌}
use common_system.Resilience.State.{closed, opened, half_open, CircuitBreakerConfig}
use common_system.Resilience.Window
use common_system.Resilience.Window.{
  new_window, get_failure_count, is_empty, cleanup_expired_failures,
}
use common_system.Resilience.Window.Refine.{
  failed, counted, cleared, run_window, run_history, window_refines,
}
use common_system.Resilience.Breaker.{
  CircuitBreaker, new_breaker, record_failure, call, run_calls, Call, allow, success, failure,
}
use common_system.Resilience.Breaker.Invariant.{
  IsValid, Transition, call-Transition, run_calls-IsValid,
}
use common_system.Resilience.Breaker.Recovery.{
  granted, requests, successes, opened_holds, half_open_probes, half_open_closes,
}
use common_system.Resilience.Breaker.Guarded.{guarded, guarded_records}

-- One tick to a millisecond, three failures, two successes, a limit of two probes.
abbrev small_config : CircuitBreakerConfig
small_config = record {
  failure_threshold = 3;
  success_threshold = 2;
  failure_window = 100;
  timeout = 50;
  half_open_max_requests = 2;
}

abbrev tripped : CircuitBreaker
tripped = record {
  config = small_config;
  state = opened;
  failure_window = record { window_duration = 100; failures = 1 ∷ 2 ∷ 3 ∷ [] };
  consecutive_successes = 0;
  half_open_requests = 0;
  last_state_change = 3;
}

abbrev probing : CircuitBreaker
probing = record tripped { state = half_open; half_open_requests = 1; last_state_change = 60 }

abbrev resting : CircuitBreaker
resting = record {
  config = small_config;
  state = closed;
  failure_window = record { window_duration = 100; failures = [] };
  consecutive_successes = 0;
  half_open_requests = 0;
  last_state_change = 0;
}

abbrev storm : List Call
storm = failure 1 1 1 ∷ failure 2 2 2 ∷ failure 3 3 3 ∷ []

storm_trips : run_calls 1 storm (new_breaker small_config 0) ≡ tripped
unfolding run_calls call new_breaker record_failure Window.record_failure Window.get_failure_count
    Window.new_window
storm_trips = refl

window_refines_example :
    run_window 1 (new_window 100) (failed 1 ∷ failed 90 ∷ counted 120 ∷ cleared ∷ counted 130 ∷ [])
    ≡ run_history 1 100 [] (failed 1 ∷ failed 90 ∷ counted 120 ∷ cleared ∷ counted 130 ∷ [])
window_refines_example =
    window_refines 1 100 (failed 1 ∷ failed 90 ∷ counted 120 ∷ cleared ∷ counted 130 ∷ []) 0
      (omega arith)

run_calls-IsValid_example : IsValid (run_calls 1 storm (new_breaker small_config 0))
run_calls-IsValid_example = run_calls-IsValid 1 storm small_config 0 (omega arith)

call-Transition_example : Transition opened (call 1 (allow 60 60) tripped).1.state
call-Transition_example = call-Transition 1 (allow 60 60) tripped

opened_holds_example :
    (granted 1 (allow 10 10 ∷ success 11 ∷ allow 52 52 ∷ []) tripped ≡ 0)
    × ((run_calls 1 (allow 10 10 ∷ success 11 ∷ allow 52 52 ∷ []) tripped).state ≡ opened)
opened_holds_example =
    opened_holds 1 (allow 10 10 ∷ success 11 ∷ allow 52 52 ∷ []) tripped (omega arith) refl
      (omega arith)

half_open_probes_example :
    (granted 1 (requests ((61, 61) ∷ (900, 900) ∷ [])) probing ≡ min 2 (2 - 1))
    × ((run_calls 1 (requests ((61, 61) ∷ (900, 900) ∷ [])) probing).state ≡ half_open)
half_open_probes_example =
    half_open_probes 1 ((61, 61) ∷ (900, 900) ∷ []) probing (omega arith) refl

probing-IsValid : IsValid probing
probing-IsValid = ground arith

half_open_closes_example :
    let b' = run_calls 1 (successes (61 ∷ 62 ∷ [])) probing in
    (2 ≤ 0 + 2) × (b'.state ≡ closed) × (b'.failure_window.failures ≡ [])
    ⊎ (0 + 2 < 2) × (b'.state ≡ half_open)
half_open_closes_example =
    half_open_closes 1 (61 ∷ 62 ∷ []) probing (omega arith) probing-IsValid refl (omega arith)

guarded_records_example : guarded 1 [] 4 5 6 resting ≡ run_calls 1 (failure 4 5 6 ∷ []) resting
guarded_records_example = guarded_records 1 [] 4 5 6 resting
