-- ===== src/Health/Status.antt =====
-- monitoring_interface.h: what a health check answers.
use common_system.Prelude.{Bool, true, false, List, [], String}

pub data HealthStatus : Type 0 where
  healthy degraded unhealthy unknown : HealthStatus

-- Without the time and the duration of the check.
pub record HealthCheckResult : Type 0 where
  pub status : HealthStatus
  pub message : String
  pub metadata : List (String × String)

abbrev pub eqb_status : HealthStatus → HealthStatus → Bool
eqb_status healthy healthy = true
eqb_status degraded degraded = true
eqb_status unhealthy unhealthy = true
eqb_status unknown unknown = true
eqb_status _ _ = false

unfoldable pub new_result : HealthCheckResult
new_result = record { status = unknown; message = ""; metadata = [] }

unfoldable pub is_healthy : HealthCheckResult → Bool
is_healthy r = eqb_status r.status healthy

unfoldable pub is_operational : HealthCheckResult → Bool
is_operational r = elim r.status [ healthy ↦ true | degraded ↦ true | _ ↦ false ]
