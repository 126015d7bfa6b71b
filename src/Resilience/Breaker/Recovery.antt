-- ===== src/Resilience/Breaker/Recovery.antt =====
-- How an open circuit waits, how it is probed, and how it closes again or stays half open.
use native.Mathlib.Nat.{le-div_iff_mul-le}
use common_system.Prelude.{
  ℕ, ◌+◌, ◌-◌, ◌*◌, ◌≤◌, ◌<◌, ◌^◌, min, max, ◌≡◌, refl, sym, subst, ◌↔◌, ◌⊎◌, inl, inr, Bool, true,
  false, Option, some, List, [], ◌∷◌, arith, length, All, if◌then◌else◌,
}
use common_system.Resilience.State.{closed, opened, half_open}
use common_system.Resilience.Window
use common_system.Resilience.Breaker.{
  CircuitBreaker, record_success, allow_request, record_failure, get_stats, should_attempt_reset,
  Call, allow, success, failure, stats, call, run_calls,
}
use common_system.Resilience.Breaker.Invariant.{IsValid, Fits, record_success-IsValid}

-- The first reading at which an open circuit lets a request through.
abbrev pub deadline : ℕ → CircuitBreaker → ℕ
deadline ticks b = b.last_state_change + b.config.timeout * ticks

should_attempt_reset_iff :
    (ticks now : ℕ) (b : CircuitBreaker)
    → 0 < ticks
    → b.last_state_change ≤ now
    → (should_attempt_reset ticks now b ≡ true) ↔ (deadline ticks b ≤ now)
unfolding should_attempt_reset
should_attempt_reset_iff ticks now b pos le =
    let iff =
      le-div_iff_mul-le {k = ticks} {x = b.config.timeout} {y = now - b.last_state_change} pos in
    ground (arith, iff)

-- An open circuit lets a request through exactly from the deadline on, and then is half open with
-- that request as its only one; before, it refuses and nothing changes.
allow_request-opened :
    (ticks t1 t2 : ℕ) (b : CircuitBreaker)
    → 0 < ticks
    → b.state ≡ opened
    → b.last_state_change ≤ t1
    → let (granted, b') = allow_request ticks t1 t2 b in
      ((deadline ticks b ≤ t1)
        × (granted ≡ true)
        × (b'.state ≡ half_open)
        × (b'.half_open_requests ≡ 1)
        × (b'.consecutive_successes ≡ 0))
      ⊎ ((t1 < deadline ticks b) × (granted ≡ false) × (b' ≡ b))
unfolding allow_request
allow_request-opened ticks t1 t2 b pos o le =
    let iff =
      le-div_iff_mul-le {k = ticks} {x = b.config.timeout} {y = t1 - b.last_state_change} pos in
    ground (arith, iff)

-- A call made before `limit` by a clock that is not behind `since`. Only `allow_request` looks at
-- the time that the circuit has been open.
abbrev pub IsEarly : ℕ → ℕ → Call → Type 0
IsEarly since limit (allow t1 t2) = (since ≤ t1) × (t1 < limit)
IsEarly since limit _ = Unit

abbrev pub is_granted : Option Bool → Bool
is_granted (some true) = true
is_granted _ = false

-- How many requests a sequence of calls lets through.
pub granted : ℕ → List Call → CircuitBreaker → ℕ
granted ticks [] b = 0
granted ticks (c ∷ calls) b =
    let (reply, b') = call ticks c b in (if is_granted reply then 1 else 0) + granted ticks calls b'

call_early :
    (ticks : ℕ) (c : Call) (b : CircuitBreaker)
    → 0 < ticks
    → b.state ≡ opened
    → IsEarly b.last_state_change (deadline ticks b) c
    → let (reply, b') = call ticks c b in
      (is_granted reply ≡ false)
      × (b'.state ≡ opened)
      × (b'.last_state_change ≡ b.last_state_change)
      × (b'.config ≡ b.config)
unfolding call record_success record_failure get_stats
call_early ticks (allow t1 t2) b pos o (le, lt) =
    elim (allow_request-opened ticks t1 t2 b pos o le) [
      | inl r ↦ absurd (omega (arith, r.0))
      | inr r ↦ ground (arith, r)
    ]
call_early ticks (success t) b pos o e = ground arith
call_early ticks (failure t1 t2 t3) b pos o e = ground arith
call_early ticks (stats t) b pos o e = ground arith

-- Until its deadline an open circuit lets nothing through and stays open, whatever results of
-- earlier requests come in.
pub opened_holds :
    (ticks : ℕ) (calls : List Call) (b : CircuitBreaker)
    → 0 < ticks
    → b.state ≡ opened
    → All (IsEarly b.last_state_change (deadline ticks b)) calls
    → (granted ticks calls b ≡ 0) × ((run_calls ticks calls b).state ≡ opened)
unfolding granted run_calls
opened_holds ticks [] b pos o e = (refl, o)
opened_holds ticks (c ∷ calls) b pos o e =
    let (refused, o', same, conf) = call_early ticks c b pos o e.0 in
    let rest = opened_holds ticks calls (call ticks c b).1 pos o' (rw (same, conf) e.1) in
    (rw refused (omega (arith, rest.0)), rest.1)

-- Requests alone: each reads the clock twice.
abbrev pub requests : List (ℕ × ℕ) → List Call
requests [] = []
requests ((t1, t2) ∷ ts) = allow t1 t2 ∷ requests ts

request_half_open :
    (ticks t1 t2 : ℕ) (b : CircuitBreaker)
    → Fits b.config
    → b.state ≡ half_open
    → let (granted, b') = allow_request ticks t1 t2 b in
      (b'.state ≡ half_open)
      × (b'.config ≡ b.config)
      × ((b.half_open_requests < b.config.half_open_max_requests)
            × (granted ≡ true)
            × (b'.half_open_requests ≡ b.half_open_requests + 1)
          ⊎ (b.config.half_open_max_requests ≤ b.half_open_requests)
            × (granted ≡ false)
            × (b'.half_open_requests ≡ b.half_open_requests))
unfolding allow_request
request_half_open ticks t1 t2 b f o = ground arith

-- A half-open circuit lets through as many requests as its limit leaves, and no more, however many
-- are made and however long they wait: without a result it stays half open for ever.
pub half_open_probes :
    (ticks : ℕ) (ts : List (ℕ × ℕ)) (b : CircuitBreaker)
    → Fits b.config
    → b.state ≡ half_open
    → (granted ticks (requests ts) b
        ≡ min (length ts) (b.config.half_open_max_requests - b.half_open_requests))
      × ((run_calls ticks (requests ts) b).state ≡ half_open)
unfolding granted run_calls call
half_open_probes ticks [] b f o = (omega arith, o)
half_open_probes ticks ((t1, t2) ∷ ts) b f o =
    let (o', conf, outcome) = request_half_open ticks t1 t2 b f o in
    let rest =
      half_open_probes ticks ts (allow_request ticks t1 t2 b).1 (subst Fits (sym conf) f) o' in
    (ground (arith, outcome, rest.0, conf), rest.1)

request_opened :
    (ticks t1 t2 : ℕ) (b : CircuitBreaker)
    → b.state ≡ opened
    → let (granted, b') = allow_request ticks t1 t2 b in
      (granted ≡ true)
        × (b'.state ≡ half_open)
        × (b'.config ≡ b.config)
        × (b'.half_open_requests ≡ 1)
      ⊎ (granted ≡ false) × (b' ≡ b)
unfolding allow_request
request_opened ticks t1 t2 b o = ground arith

-- From OPEN, requests alone are let through at most `half_open_max_requests` times, or once if that
-- is zero.
opened_probes :
    (ticks : ℕ) (ts : List (ℕ × ℕ)) (b : CircuitBreaker)
    → Fits b.config
    → b.state ≡ opened
    → granted ticks (requests ts) b ≤ max 1 b.config.half_open_max_requests
unfolding granted call
opened_probes ticks [] b f o = omega arith
opened_probes ticks ((t1, t2) ∷ ts) b f o =
    let b' : CircuitBreaker = (allow_request ticks t1 t2 b).1 in
    elim (request_opened ticks t1 t2 b o) [
      | inl (yes_, o', conf, one) ↦
          ground (arith, half_open_probes ticks ts b' (subst Fits (sym conf) f) o')
      | inr (no_, same) ↦ rw (no_, same) (omega (arith, opened_probes ticks ts b f o))
    ]

-- Successes, one reading each.
abbrev pub successes : List ℕ → List Call
successes [] = []
successes (t ∷ ts) = success t ∷ successes ts

success_half_open :
    (t : ℕ) (b : CircuitBreaker)
    → b.state ≡ half_open
    → b.consecutive_successes + 1 < 2 ^ 64
    → let b' = record_success t b in
      (b.config.success_threshold ≤ b.consecutive_successes + 1)
        × (b'.state ≡ closed)
        × (b'.failure_window.failures ≡ [])
      ⊎ (b.consecutive_successes + 1 < b.config.success_threshold)
        × (b'.state ≡ half_open)
        × (b'.consecutive_successes ≡ b.consecutive_successes + 1)
        × (b'.config ≡ b.config)
unfolding record_success Window.reset
success_half_open t b o small = ground arith

success_closed :
    (ticks : ℕ) (ts : List ℕ) (b : CircuitBreaker)
    → b.state ≡ closed
    → run_calls ticks (successes ts) b ≡ b
unfolding run_calls call record_success
success_closed ticks [] b c = refl
success_closed ticks (t ∷ ts) b c =
    rw (success_closed ticks ts (record_success t b) (ground arith)) (ground arith)

-- A half-open circuit closes, with an empty window, exactly when the successes in a row reach the
-- threshold; with fewer it stays half open.
pub half_open_closes :
    (ticks : ℕ) (ts : List ℕ) (b : CircuitBreaker)
    → Fits b.config
    → IsValid b
    → b.state ≡ half_open
    → 0 < length ts
    → let b' = run_calls ticks (successes ts) b in
      (b.config.success_threshold ≤ b.consecutive_successes + length ts)
        × (b'.state ≡ closed)
        × (b'.failure_window.failures ≡ [])
      ⊎ (b.consecutive_successes + length ts < b.config.success_threshold) × (b'.state ≡ half_open)
unfolding run_calls call
half_open_closes ticks [] b f v o pos = absurd (omega arith)
half_open_closes ticks (t ∷ []) b f v o pos = ground (arith, success_half_open t b o (ground arith))
half_open_closes ticks (t ∷ u ∷ ts) b f v o pos =
    let b' : CircuitBreaker = record_success t b in
    elim (success_half_open t b o (ground arith)) [
      | inl (reach, c, fresh) ↦ inl (
        omega arith,
        rw (success_closed ticks (u ∷ ts) b' c) c,
        rw (success_closed ticks (u ∷ ts) b' c) fresh,
      )
      | inr (short, o', more, conf) ↦ ground (
        arith,
        conf,
        more,
        half_open_closes ticks (u ∷ ts) b' (subst Fits (sym conf) f)
            (record_success-IsValid t b f v) o' (omega arith),
      )
    ]
