-- ===== src/Resilience/Window.antt =====
-- failure_window.h: a deque of failure times, pruned when it is read.
pub mod Refine
use common_system.Prelude.{
  ℕ, ◌+◌, ◌*◌, Bool, true, false, not, List, [], ◌∷◌, ◌++◌, ltb, length, keep,
}

pub record FailureWindow : Type 0 where
  pub window_duration : ℕ
  pub failures : List ℕ

unfoldable pub new_window : ℕ → FailureWindow
new_window d = record { window_duration = d; failures = [] }

unfoldable pub record_failure : ℕ → FailureWindow → FailureWindow
record_failure now w = record w { failures = w.failures ++ now ∷ [] }

unfoldable pub reset : FailureWindow → FailureWindow
reset w = record w { failures = [] }

abbrev pub is_nil : List ℕ → Bool
is_nil [] = true
is_nil (_ ∷ _) = false

module _ (ticks_per_ms : ℕ) where
  -- `t < now - window_duration_`: the subtraction is signed, so the duration moves to the left.
  abbrev pub is_expired : ℕ → ℕ → ℕ → Bool
  is_expired d now t = ltb (t + d * ticks_per_ms) now

  -- erase(remove_if(…)) keeps the rest in order.
  unfoldable pub cleanup_expired_failures : ℕ → FailureWindow → FailureWindow
  cleanup_expired_failures now w = record w {
    failures = keep (λ t. not (is_expired w.window_duration now t)) w.failures;
  }

  unfoldable pub get_failure_count : ℕ → FailureWindow → ℕ × FailureWindow
  unfolding cleanup_expired_failures
  get_failure_count now w = let w' = cleanup_expired_failures now w in (length w'.failures, w')

  unfoldable pub is_empty : ℕ → FailureWindow → Bool × FailureWindow
  unfolding cleanup_expired_failures
  is_empty now w = let w' = cleanup_expired_failures now w in (is_nil w'.failures, w')
