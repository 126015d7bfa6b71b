-- ===== src/Config/Validation.antt =====
-- config_loader.h: validate.
pub mod Exact
use Prim.Native.String.{◌++◌ as concat}
use common_system.Prelude.{
  ℕ, Bool, true, false, not, ◌&&◌, ◌||◌, List, [], ◌∷◌, ◌++◌, String, ℤ, pos, negsuc, ltb, ◌==◌,
  if◌then◌else◌,
}
use common_system.Config.CliParser.{is_empty}
use common_system.Config.Double.{Double, less_than_zero, greater_than_one}
use common_system.Config.UnifiedConfig.{
  ThreadConfig, LoggerConfig, MonitoringConfig, DatabaseConfig, NetworkConfig, UnifiedConfig,
  is_field,
}
use common_system.Result.Core.{Result, ok, err, plain_error}

pub record ValidationIssue : Type 0 where
  pub field_path : String
  pub message : String
  pub is_warning : Bool

-- `if (...) issues.push_back(...)`, as what it adds.
abbrev pub when : Bool → Bool → String → String → List ValidationIssue
when false warning path text = []
when true warning path text =
    record { field_path = path; message = text; is_warning = warning } ∷ []

abbrev pub queue_types : List String
queue_types = "mutex" ∷ "lockfree" ∷ "bounded" ∷ []

abbrev pub levels : List String
levels = "trace" ∷ "debug" ∷ "info" ∷ "warn" ∷ "error" ∷ "critical" ∷ "off" ∷ []

abbrev pub writers : List String
writers = "console" ∷ "file" ∷ "rotating_file" ∷ "network" ∷ "json" ∷ []

abbrev pub exporters : List String
exporters = "otlp" ∷ "jaeger" ∷ "zipkin" ∷ "console" ∷ []

abbrev pub backends : List String
backends = "postgresql" ∷ "mysql" ∷ "sqlite" ∷ "mongodb" ∷ "redis" ∷ []

abbrev pub compressions : List String
compressions = "none" ∷ "lz4" ∷ "gzip" ∷ "deflate" ∷ "zstd" ∷ []

abbrev pub tls_versions : List String
tls_versions = "1.2" ∷ "1.3" ∷ []

-- "Invalid <what>: <value>. Valid values: <values>"
abbrev pub invalid : String → String → String → String
invalid what value values =
    concat "Invalid " (concat what (concat ": " (concat value (concat ". Valid values: " values))))

unfoldable pub validate_thread_config : ThreadConfig → List ValidationIssue
validate_thread_config config =
    when (not (is_field config.queue_type queue_types)) false "thread.queue_type"
      (invalid "queue type" config.queue_type "mutex, lockfree, bounded")
    ++ when (config.max_queue_size == 0) false "thread.max_queue_size"
        "Queue size must be greater than 0"

unfoldable pub validate_writers : List String → List ValidationIssue
validate_writers [] = []
validate_writers (writer ∷ rest) =
    when (not (is_field writer writers)) false "logger.writers"
      (invalid "writer" writer "console, file, rotating_file, network, json")
    ++ validate_writers rest

unfoldable pub validate_logger_config : LoggerConfig → List ValidationIssue
unfolding validate_writers
validate_logger_config config =
    when (not (is_field config.level levels)) false "logger.level"
      (invalid "log level" config.level "trace, debug, info, warn, error, critical, off")
    ++ (validate_writers config.writers
        ++ when (config.async && ltb config.buffer_size 1024) true "logger.buffer_size"
            "Buffer size is very small for async logging. Consider using at least 1024 bytes.")

abbrev pub less_than_second : ℤ → Bool
less_than_second (pos n) = ltb n 1000
less_than_second (negsuc n) = true

unfoldable pub validate_monitoring_config : MonitoringConfig Double → List ValidationIssue
validate_monitoring_config config =
    when
      (less_than_zero config.tracing.sampling_rate || greater_than_one config.tracing.sampling_rate)
      false "monitoring.tracing.sampling_rate" "Sampling rate must be between 0.0 and 1.0"
    ++ (when (not (is_field config.tracing.exporter exporters)) false "monitoring.tracing.exporter"
          (invalid "exporter" config.tracing.exporter "otlp, jaeger, zipkin, console")
        ++ when (less_than_second config.metrics_interval) true "monitoring.metrics_interval"
            "Metrics interval is very short (<1s). This may cause performance issues.")

unfoldable pub validate_database_config : DatabaseConfig → List ValidationIssue
validate_database_config config =
    when (not (is_empty config.backend) && not (is_field config.backend backends)) false
      "database.backend"
      (invalid "backend" config.backend "postgresql, mysql, sqlite, mongodb, redis")
    ++ (when (ltb config.pool.max_size config.pool.min_size) false "database.pool"
          "min_size cannot be greater than max_size"
        ++ when (config.pool.max_size == 0) false "database.pool.max_size"
            "Pool max_size must be greater than 0")

unfoldable pub validate_network_config : NetworkConfig → List ValidationIssue
validate_network_config config =
    when (not (is_field config.compression compressions)) false "network.compression"
      (invalid "compression" config.compression "none, lz4, gzip, deflate, zstd")
    ++ (when (not (is_field config.tls.version tls_versions)) false "network.tls.version"
          (invalid "TLS version" config.tls.version "1.2, 1.3")
        ++ (when (ltb config.buffer_size 4096) true "network.buffer_size"
              "Buffer size is very small (<4KB). This may cause performance issues."
            ++ when (config.tls.enabled && config.tls.verify_peer && is_empty config.tls.ca_path)
                true "network.tls.ca_path"
                "TLS is enabled with verify_peer but no CA path specified."))

unfoldable pub get_validation_issues : UnifiedConfig Double → List ValidationIssue
unfolding validate_thread_config validate_logger_config validate_monitoring_config
    validate_database_config validate_network_config
get_validation_issues config =
    validate_thread_config config.thread
    ++ (validate_logger_config config.logger
        ++ (validate_monitoring_config config.monitoring
            ++ (validate_database_config config.database
                ++ validate_network_config config.network)))

-- The loop that looks for an error among the warnings.
unfoldable pub first_error : List ValidationIssue → Result (Unit {0})
first_error [] = ok tt
first_error (issue ∷ issues) =
    let rest = first_error issues in
    if issue.is_warning
    then rest
    else err (
        plain_error (pos 1003)
          (concat "Validation failed for " (concat issue.field_path (concat ": " issue.message)))
          "config_loader")

unfoldable pub validate : UnifiedConfig Double → Result (Unit {0})
unfolding first_error get_validation_issues
validate config = first_error (get_validation_issues config)
