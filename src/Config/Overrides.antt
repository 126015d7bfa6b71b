-- ===== src/Config/Overrides.antt =====
-- cli_config_parser.h: overrides. `stoull`, `stoll` and `stod` are the library's, none where they
-- throw; `nothing` is the double 0.0. The conditions of apply_override are the table, in their order,
-- a condition with two keys as two entries.
pub mod Documented
pub mod LastWins
use Prim.Native.String.{String, ◌++◌ as concat}
use common_system.Prelude.{
  ℕ, Bool, ◌||◌, ◌&&◌, ◌+◌, ◌%◌, ◌^◌, Option, none, some, List, [], ◌∷◌, ℤ, pos, leb, map,
  if◌then◌else◌,
}
use common_system.Config.CliParser.{same_text, failure}
use common_system.Config.UnifiedConfig.{UnifiedConfig}
use common_system.Result.Core.{Result, ok}
use common_system.Utils.Enums.{codes, eqb_codes}

abbrev pub tolower : ℕ → ℕ
tolower c = if leb b'A' c && leb c b'Z' then c + 32 else c

unfoldable pub parse_bool : String → Bool
parse_bool value =
    let lower = map tolower (codes value) in
    eqb_codes lower (codes "true")
    || eqb_codes lower (codes "1")
    || eqb_codes lower (codes "yes")
    || eqb_codes lower (codes "on")

abbrev pub or_value : {A : Type 0} → A → Option A → A
or_value other none = other
or_value other (some value) = value

module _ {Double : Type 0} (nothing : Double) (stoull : String → Option ℕ)
    (stoll : String → Option ℤ) (stod : String → Option Double) where
  abbrev pub parse_size_t : String → ℕ
  parse_size_t value = or_value 0 (stoull value)

  abbrev pub parse_int64 : String → ℤ
  parse_int64 value = or_value (pos 0) (stoll value)

  abbrev pub parse_double : String → Double
  parse_double value = or_value nothing (stod value)

  abbrev pub Setter : Type 0
  Setter = String → UnifiedConfig Double → UnifiedConfig Double

  abbrev pub settings : List (String × Setter)
  settings =
      (
        "thread.pool_size",
        λ value c. record c { thread = record c.thread { pool_size = parse_size_t value } },
      )
      ∷ (
        "thread.queue_type",
        λ value c. record c { thread = record c.thread { queue_type = value } },
      )
      ∷ (
        "thread.max_queue_size",
        λ value c. record c { thread = record c.thread { max_queue_size = parse_size_t value } },
      )
      ∷ (
        "thread.thread_name_prefix",
        λ value c. record c { thread = record c.thread { thread_name_prefix = value } },
      )
      ∷ ("logger.level", λ value c. record c { logger = record c.logger { level = value } })
      ∷ (
        "logger.async",
        λ value c. record c { logger = record c.logger { async = parse_bool value } },
      )
      ∷ (
        "logger.buffer_size",
        λ value c. record c { logger = record c.logger { buffer_size = parse_size_t value } },
      )
      ∷ ("logger.file_path", λ value c. record c { logger = record c.logger { file_path = value } })
      ∷ (
        "logger.max_file_size",
        λ value c. record c { logger = record c.logger { max_file_size = parse_size_t value } },
      )
      ∷ (
        "logger.max_backup_files",
        λ value c. record c { logger = record c.logger { max_backup_files = parse_size_t value } },
      )
      ∷ (
        "logger.format_pattern",
        λ value c. record c { logger = record c.logger { format_pattern = value } },
      )
      ∷ (
        "monitoring.enabled",
        λ value c. record c { monitoring = record c.monitoring { enabled = parse_bool value } },
      )
      ∷ (
        "monitoring.metrics_interval",
        λ value c. record c {
          monitoring = record c.monitoring { metrics_interval = parse_int64 value };
        },
      )
      ∷ (
        "monitoring.metrics_interval_ms",
        λ value c. record c {
          monitoring = record c.monitoring { metrics_interval = parse_int64 value };
        },
      )
      ∷ (
        "monitoring.health_check_interval",
        λ value c. record c {
          monitoring = record c.monitoring { health_check_interval = parse_int64 value };
        },
      )
      ∷ (
        "monitoring.health_check_interval_ms",
        λ value c. record c {
          monitoring = record c.monitoring { health_check_interval = parse_int64 value };
        },
      )
      ∷ (
        "monitoring.prometheus_port",
        λ value c. record c {
          monitoring = record c.monitoring { prometheus_port = parse_size_t value % 2 ^ 16 };
        },
      )
      ∷ (
        "monitoring.prometheus_path",
        λ value c. record c { monitoring = record c.monitoring { prometheus_path = value } },
      )
      ∷ (
        "monitoring.tracing.enabled",
        λ value c. record c {
          monitoring = record c.monitoring {
            tracing = record c.monitoring.tracing { enabled = parse_bool value };
          };
        },
      )
      ∷ (
        "monitoring.tracing.sampling_rate",
        λ value c. record c {
          monitoring = record c.monitoring {
            tracing = record c.monitoring.tracing { sampling_rate = parse_double value };
          };
        },
      )
      ∷ (
        "monitoring.tracing.exporter",
        λ value c. record c {
          monitoring = record c.monitoring {
            tracing = record c.monitoring.tracing { exporter = value };
          };
        },
      )
      ∷ (
        "monitoring.tracing.endpoint",
        λ value c. record c {
          monitoring = record c.monitoring {
            tracing = record c.monitoring.tracing { endpoint = value };
          };
        },
      )
      ∷ (
        "database.backend",
        λ value c. record c { database = record c.database { backend = value } },
      )
      ∷ (
        "database.connection_string",
        λ value c. record c { database = record c.database { connection_string = value } },
      )
      ∷ (
        "database.log_queries",
        λ value c. record c { database = record c.database { log_queries = parse_bool value } },
      )
      ∷ (
        "database.slow_query_threshold",
        λ value c. record c {
          database = record c.database { slow_query_threshold = parse_int64 value };
        },
      )
      ∷ (
        "database.slow_query_threshold_ms",
        λ value c. record c {
          database = record c.database { slow_query_threshold = parse_int64 value };
        },
      )
      ∷ (
        "database.pool.min_size",
        λ value c. record c {
          database = record c.database {
            pool = record c.database.pool { min_size = parse_size_t value };
          };
        },
      )
      ∷ (
        "database.pool.max_size",
        λ value c. record c {
          database = record c.database {
            pool = record c.database.pool { max_size = parse_size_t value };
          };
        },
      )
      ∷ (
        "database.pool.idle_timeout",
        λ value c. record c {
          database = record c.database {
            pool = record c.database.pool { idle_timeout = parse_int64 value };
          };
        },
      )
      ∷ (
        "database.pool.idle_timeout_ms",
        λ value c. record c {
          database = record c.database {
            pool = record c.database.pool { idle_timeout = parse_int64 value };
          };
        },
      )
      ∷ (
        "database.pool.acquire_timeout",
        λ value c. record c {
          database = record c.database {
            pool = record c.database.pool { acquire_timeout = parse_int64 value };
          };
        },
      )
      ∷ (
        "database.pool.acquire_timeout_ms",
        λ value c. record c {
          database = record c.database {
            pool = record c.database.pool { acquire_timeout = parse_int64 value };
          };
        },
      )
      ∷ (
        "network.compression",
        λ value c. record c { network = record c.network { compression = value } },
      )
      ∷ (
        "network.buffer_size",
        λ value c. record c { network = record c.network { buffer_size = parse_size_t value } },
      )
      ∷ (
        "network.connect_timeout",
        λ value c. record c { network = record c.network { connect_timeout = parse_int64 value } },
      )
      ∷ (
        "network.connect_timeout_ms",
        λ value c. record c { network = record c.network { connect_timeout = parse_int64 value } },
      )
      ∷ (
        "network.io_timeout",
        λ value c. record c { network = record c.network { io_timeout = parse_int64 value } },
      )
      ∷ (
        "network.io_timeout_ms",
        λ value c. record c { network = record c.network { io_timeout = parse_int64 value } },
      )
      ∷ (
        "network.keepalive_interval",
        λ value c. record c {
          network = record c.network { keepalive_interval = parse_int64 value };
        },
      )
      ∷ (
        "network.keepalive_interval_ms",
        λ value c. record c {
          network = record c.network { keepalive_interval = parse_int64 value };
        },
      )
      ∷ (
        "network.max_connections",
        λ value c. record c { network = record c.network { max_connections = parse_size_t value } },
      )
      ∷ (
        "network.tls.enabled",
        λ value c. record c {
          network = record c.network { tls = record c.network.tls { enabled = parse_bool value } };
        },
      )
      ∷ (
        "network.tls.version",
        λ value c. record c {
          network = record c.network { tls = record c.network.tls { version = value } };
        },
      )
      ∷ (
        "network.tls.cert_path",
        λ value c. record c {
          network = record c.network { tls = record c.network.tls { cert_path = value } };
        },
      )
      ∷ (
        "network.tls.key_path",
        λ value c. record c {
          network = record c.network { tls = record c.network.tls { key_path = value } };
        },
      )
      ∷ (
        "network.tls.ca_path",
        λ value c. record c {
          network = record c.network { tls = record c.network.tls { ca_path = value } };
        },
      )
      ∷ (
        "network.tls.verify_peer",
        λ value c. record c {
          network = record c.network {
            tls = record c.network.tls { verify_peer = parse_bool value };
          };
        },
      )
      ∷ []

  unfoldable pub find_setting : String → List (String × Setter) → Option Setter
  find_setting key [] = none
  find_setting key (entry ∷ rest) =
      if same_text key entry.0 then some entry.1 else find_setting key rest

  unfoldable pub apply_override :
      String → String → UnifiedConfig Double → Result (Unit {0}) × UnifiedConfig Double
  unfolding find_setting parse_bool
  apply_override key value config = elim (find_setting key settings) [
    | none ↦ (failure 2003 (concat "Unknown configuration key: " key), config)
    | some set ↦ (ok tt, set value config)
  ]
