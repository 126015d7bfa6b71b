-- ===== src/Utils/Enums/Tables.antt =====
-- The enumerations with traits: health_status and metric_type (monitoring_interface.h),
-- health_check_type (health_check.h) and log_level (logger_interface.h, whose `warn` and `fatal` are
-- `warning` and `critical`).
use common_system.Prelude.{ℕ, [], ◌∷◌, ◌==◌}
use common_system.Health.Status.{HealthStatus, healthy, degraded, unhealthy, unknown, eqb_status}
use common_system.Utils.Enums.{EnumTraits}

pub data MetricType : Type 0 where
  gauge counter histogram summary : MetricType

pub data HealthCheckType : Type 0 where
  liveness readiness startup dependency custom : HealthCheckType

pub data LogLevel : Type 0 where
  trace debug info warning error critical off : LogLevel

-- The underlying numbers, which `==` compares.
abbrev pub metric_number : MetricType → ℕ
metric_number gauge = 0
metric_number counter = 1
metric_number histogram = 2
metric_number summary = 3

abbrev pub check_number : HealthCheckType → ℕ
check_number liveness = 0
check_number readiness = 1
check_number startup = 2
check_number dependency = 3
check_number custom = 4

abbrev pub level_number : LogLevel → ℕ
level_number trace = 0
level_number debug = 1
level_number info = 2
level_number warning = 3
level_number error = 4
level_number critical = 5
level_number off = 6

instance abbrev pub health_status_traits : EnumTraits HealthStatus
health_status_traits = record {
  values =
      (healthy, "HEALTHY")
      ∷ (degraded, "DEGRADED")
      ∷ (unhealthy, "UNHEALTHY")
      ∷ (unknown, "UNKNOWN")
      ∷ [];
  module_name = "monitoring_interface";
  eqb = eqb_status;
}

instance abbrev pub metric_type_traits : EnumTraits MetricType
metric_type_traits = record {
  values =
      (gauge, "GAUGE")
      ∷ (counter, "COUNTER")
      ∷ (histogram, "HISTOGRAM")
      ∷ (summary, "SUMMARY")
      ∷ [];
  module_name = "monitoring_interface";
  eqb = λ a b. metric_number a == metric_number b;
}

instance abbrev pub health_check_type_traits : EnumTraits HealthCheckType
health_check_type_traits = record {
  values =
      (liveness, "LIVENESS")
      ∷ (readiness, "READINESS")
      ∷ (startup, "STARTUP")
      ∷ (dependency, "DEPENDENCY")
      ∷ (custom, "CUSTOM")
      ∷ [];
  module_name = "health_check";
  eqb = λ a b. check_number a == check_number b;
}

instance abbrev pub log_level_traits : EnumTraits LogLevel
log_level_traits = record {
  values =
      (trace, "TRACE")
      ∷ (debug, "DEBUG")
      ∷ (info, "INFO")
      ∷ (warning, "WARNING")
      ∷ (error, "ERROR")
      ∷ (critical, "CRITICAL")
      ∷ (off, "OFF")
      ∷ [];
  module_name = "logger_interface";
  eqb = λ a b. level_number a == level_number b;
}
