-- ===== src/Health/Composite/Worst.antt =====
-- A composite check answers the worst status of its children, and counts them.
use common_system.Prelude.{
  ℕ, suc, ◌+◌, ◌^◌, ◌<◌, ltb, ap, ◌≡◌, refl, ◌∙◌, [], ◌∷◌, String, length, if◌then◌else◌, arith,
}
use common_system.Health.Composite.{Child, Checks, Tally, tally, tally_all, new_tally, check}
use common_system.Health.Status.{HealthStatus, healthy, degraded, unhealthy, unknown, eqb_status}

-- How bad a status is: an unknown one is worse than a healthy one only.
abbrev pub severity : HealthStatus → ℕ
severity healthy = 0
severity unknown = 1
severity degraded = 2
severity unhealthy = 3

abbrev pub worse : ℕ → ℕ → ℕ
worse a b = if ltb a b then b else a

abbrev pub worst : Checks → ℕ
worst [] = 0
worst (child ∷ checks) = worse (severity child.answer.status) (worst checks)

abbrev pub count_status : HealthStatus → Checks → ℕ
count_status s [] = 0
count_status s (child ∷ checks) =
    (if eqb_status child.answer.status s then 1 else 0) + count_status s checks

-- The status that the switch leaves.
settle : HealthStatus → HealthStatus → HealthStatus
settle unhealthy b = unhealthy
settle degraded b = if eqb_status b unhealthy then b else degraded
settle unknown b = if eqb_status b healthy then unknown else b
settle healthy b = b

severity-settle : (a b : HealthStatus) → severity (settle a b) ≡ worse (severity a) (severity b)
unfolding settle
severity-settle healthy healthy = refl
severity-settle healthy degraded = refl
severity-settle healthy unhealthy = refl
severity-settle healthy unknown = refl
severity-settle degraded healthy = refl
severity-settle degraded degraded = refl
severity-settle degraded unhealthy = refl
severity-settle degraded unknown = refl
severity-settle unknown healthy = refl
severity-settle unknown degraded = refl
severity-settle unknown unhealthy = refl
severity-settle unknown unknown = refl
severity-settle unhealthy b = ground arith

tally-settle :
    (child : Child) (s : HealthStatus) (t : Tally) → (tally child s t).status ≡ settle s t.status
unfolding tally settle
tally-settle child healthy t = refl
tally-settle child degraded t = refl
tally-settle child unhealthy t = refl
tally-settle child unknown t = refl

worse_swap : (a b c : ℕ) → worse (worse a b) c ≡ worse b (worse a c)
worse_swap a b c = ground arith

status-tally_all :
    (checks : Checks) (t : Tally)
    → severity (tally_all checks t).status ≡ worse (severity t.status) (worst checks)
unfolding tally_all
status-tally_all [] t = ground arith
status-tally_all (child ∷ checks) t =
    status-tally_all checks (tally child child.answer.status t)
    ∙ ap (λ x. worse x (worst checks))
        (ap severity (tally-settle child child.answer.status t)
          ∙ severity-settle child.answer.status t.status)
    ∙ worse_swap (severity child.answer.status) (severity t.status) (worst checks)

-- The three counts of a tally, against those of a tally before it.
Counts : Tally → Tally → ℕ → ℕ → ℕ → Type 0
Counts after t h d u =
    (after.healthy_count ≡ t.healthy_count + h)
    × (after.degraded_count ≡ t.degraded_count + d)
    × (after.unhealthy_count ≡ t.unhealthy_count + u)

record Room (t : Tally) (n : ℕ) : Type 0 where
  for_healthy : t.healthy_count + n < 2 ^ 64
  for_degraded : t.degraded_count + n < 2 ^ 64
  for_unhealthy : t.unhealthy_count + n < 2 ^ 64

one : HealthStatus → HealthStatus → ℕ
one s k = if eqb_status s k then 1 else 0

Counts-tally :
    (child : Child) (s : HealthStatus) (t : Tally) (n : ℕ)
    → Room t (suc n)
    → Counts (tally child s t) t (one s healthy) (one s degraded) (one s unhealthy)
      × Room (tally child s t) n
unfolding tally Counts one
Counts-tally child healthy t n r = omega arith
Counts-tally child degraded t n r = omega arith
Counts-tally child unhealthy t n r = omega arith
Counts-tally child unknown t n r = omega arith

Counts-tally_all :
    (checks : Checks) (t : Tally)
    → Room t (length checks)
    → Counts
        (tally_all checks t)
        t
        (count_status healthy checks)
        (count_status degraded checks)
        (count_status unhealthy checks)
unfolding tally_all Counts one
Counts-tally_all [] t r = omega arith
Counts-tally_all (child ∷ checks) t r =
    let (here, room) = Counts-tally child child.answer.status t (length checks) r in
    let later = Counts-tally_all checks (tally child child.answer.status t) room in
    (omega (arith, here.0, later.0), omega (arith, here.1, later.1), omega (arith, here.2, later.2))

-- With less than 2 ^ 64 children, a composite check answers the worst of their statuses (unhealthy,
-- then degraded, then unknown, then healthy), and its metadata give the number of the children and how many are healthy, degraded and unhealthy.
pub composite_worst :
    (decimal : ℕ → String) (checks : Checks)
    → length checks < 2 ^ 64
    → (severity (check decimal checks).status ≡ worst checks)
      × ((check decimal checks).metadata
          ≡ ("total_checks", decimal (length checks))
            ∷ ("healthy_count", decimal (count_status healthy checks))
            ∷ ("degraded_count", decimal (count_status degraded checks))
            ∷ ("unhealthy_count", decimal (count_status unhealthy checks))
            ∷ [])
unfolding check Counts
composite_worst decimal checks few =
    let counts = Counts-tally_all checks new_tally (record {
      for_healthy = omega (arith, few);
      for_degraded = omega (arith, few);
      for_unhealthy = omega (arith, few);
    }) in
    let h : (tally_all checks new_tally).healthy_count ≡ count_status healthy checks =
      omega (arith, counts.0) in
    let d : (tally_all checks new_tally).degraded_count ≡ count_status degraded checks =
      omega (arith, counts.1) in
    let u : (tally_all checks new_tally).unhealthy_count ≡ count_status unhealthy checks =
      omega (arith, counts.2) in
    (status-tally_all checks new_tally ∙ ground arith, rw (h, d, u) refl)
