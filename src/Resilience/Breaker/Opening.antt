-- ===== src/Resilience/Breaker/Opening.antt =====
-- When a closed circuit opens, and what an open one refuses.
use common_system.Prelude.{ℕ, ◌+◌, ◌*◌, ◌≤◌, ◌≡◌, ◌↔◌, List, [], ◌∷◌, ◌++◌, arith, length}
use common_system.Resilience.State.{closed, opened}
use common_system.Resilience.Window
use common_system.Resilience.Window.{is_expired}
use common_system.Resilience.Window.Refine.{live}
use common_system.Resilience.Breaker.{CircuitBreaker, record_failure}

-- A failure opens a closed circuit exactly when the failures that the window still counts, this one
-- with them, reach the threshold.
record_failure-trips :
    (ticks t1 t2 t3 : ℕ) (b : CircuitBreaker)
    → b.state ≡ closed
    → ((record_failure ticks t1 t2 t3 b).state ≡ opened) ↔ (
        b.config.failure_threshold
        ≤ length
            (live ticks b.failure_window.window_duration t2 (b.failure_window.failures ++ t1 ∷ [])))
unfolding record_failure Window.get_failure_count Window.record_failure
record_failure-trips ticks t1 t2 t3 b c = ground arith

-- The failures of a burst, one call each.
unfoldable pub burst : ℕ → List ℕ → CircuitBreaker → CircuitBreaker
burst ticks [] b = b
burst ticks (t ∷ ts) b = burst ticks ts (record_failure ticks t t t b)

module _ (ticks d base : ℕ) where
  abbrev pub Within : ℕ → Type 0
  Within t = (base ≤ t) × (t ≤ base + d * ticks)
