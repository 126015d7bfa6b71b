-- ===== src/Resilience/Breaker/Guarded.antt =====
-- The guard of a protected operation: what it records by the end of its scope.
use common_system.Prelude.{ℕ, ◌≡◌, refl, true, List, [], ◌∷◌}
use common_system.Resilience.Breaker.{
  CircuitBreaker, record_success, Guard, make_guard, guard_success, end_guard, Call, failure, call,
  run_calls,
}
use common_system.Resilience.Breaker.Recovery.{successes}

mark_all : List ℕ → Guard × CircuitBreaker → Guard × CircuitBreaker
mark_all [] s = s
mark_all (t ∷ ts) s = mark_all ts (guard_success t s)

-- A scope: `make_guard()`, a call of `record_success` at each reading of the list, and the end.
-- An exception leaves the scope with the calls made so far.
unfoldable pub guarded : ℕ → List ℕ → ℕ → ℕ → ℕ → CircuitBreaker → CircuitBreaker
unfolding mark_all
guarded ticks ts t1 t2 t3 b =
    let (g, b') = mark_all ts (make_guard, b) in end_guard ticks t1 t2 t3 g b'

-- What a scope should record: its successes, or one failure if there is none.
abbrev pub recorded : List ℕ → ℕ → ℕ → ℕ → List Call
recorded [] t1 t2 t3 = failure t1 t2 t3 ∷ []
recorded (t ∷ ts) t1 t2 t3 = successes (t ∷ ts)

committed_scope :
    (ticks : ℕ) (ts : List ℕ) (t1 t2 t3 : ℕ) (b : CircuitBreaker)
    → let (g, b') = mark_all ts (record { committed = true }, b) in
      end_guard ticks t1 t2 t3 g b' ≡ run_calls ticks (successes ts) b
unfolding mark_all guard_success end_guard run_calls call
committed_scope ticks [] t1 t2 t3 b = refl
committed_scope ticks (t ∷ ts) t1 t2 t3 b = committed_scope ticks ts t1 t2 t3 (record_success t b)

-- A guarded scope is the same as the calls that it stands for: every explicit success and nothing
-- else, or exactly one failure where no success was recorded.
pub guarded_records :
    (ticks : ℕ) (ts : List ℕ) (t1 t2 t3 : ℕ) (b : CircuitBreaker)
    → guarded ticks ts t1 t2 t3 b ≡ run_calls ticks (recorded ts t1 t2 t3) b
unfolding guarded make_guard guard_success end_guard run_calls call
guarded_records ticks [] t1 t2 t3 b = refl
guarded_records ticks (t ∷ ts) t1 t2 t3 b =
    unfold mark_all in committed_scope ticks ts t1 t2 t3 (record_success t b)
