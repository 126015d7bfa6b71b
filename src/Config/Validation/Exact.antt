-- ===== src/Config/Validation/Exact.antt =====
-- Which configurations validate accepts.
use common_system.Prelude.{
  ℕ, if◌then◌else◌, ◌+◌, ◌*◌, ◌^◌, ◌||◌, leb, pos, negsuc, Bool, true, false, not, ◌&&◌, ◌≡◌, refl,
  ap, ◌∙◌, List, [], ◌∷◌, ◌++◌, String, ltb, ◌==◌, arith,
}
use common_system.Config.CliParser.{is_empty}
use common_system.Config.Double.{Double, nan, infinity, finite, less_than_zero, greater_than_one}
use common_system.Utils.Enums.{codes, eqb_codes}
use common_system.Config.UnifiedConfig.{
  FieldMetadata, get_config_metadata, ThreadConfig, LoggerConfig, MonitoringConfig, DatabaseConfig,
  NetworkConfig, UnifiedConfig, is_field,
}
use common_system.Config.Validation.{
  ValidationIssue, when, queue_types, levels, writers, exporters, backends, compressions,
  tls_versions, validate_thread_config, validate_writers, validate_logger_config,
  validate_monitoring_config, validate_database_config, validate_network_config,
  get_validation_issues, first_error, validate, less_than_second,
}
use common_system.Result.Core.{is_ok, ok, err}

abbrev clean : List ValidationIssue → Bool
clean [] = true
clean (issue ∷ issues) = issue.is_warning && clean issues

clean-append : (xs ys : List ValidationIssue) → clean (xs ++ ys) ≡ (clean xs && clean ys)
clean-append [] ys = refl
clean-append (issue ∷ xs) ys = ground (arith, clean-append xs ys)

first_error-clean : (issues : List ValidationIssue) → is_ok (first_error issues) ≡ clean issues
unfolding first_error is_ok ok err
first_error-clean [] = refl
first_error-clean (issue ∷ issues) = ground (arith, first_error-clean issues)

-- What a test adds to the issues behind it.
error_then :
    (test : Bool) (path text : String) (xs : List ValidationIssue)
    → clean (when test false path text ++ xs) ≡ (not test && clean xs)
error_then true path text xs = refl
error_then false path text xs = refl

valid_then :
    (valid : Bool) (path text : String) (xs : List ValidationIssue)
    → clean (when (not valid) false path text ++ xs) ≡ (valid && clean xs)
valid_then true path text xs = refl
valid_then false path text xs = refl

error_last : (test : Bool) (path text : String) → clean (when test false path text) ≡ not test
error_last true path text = refl
error_last false path text = refl

warning_then :
    (test : Bool) (path text : String) (xs : List ValidationIssue)
    → clean (when test true path text ++ xs) ≡ clean xs
warning_then true path text xs = refl
warning_then false path text xs = refl

warning_last : (test : Bool) (path text : String) → clean (when test true path text) ≡ true
warning_last true path text = refl
warning_last false path text = refl

and_true : (b : Bool) → (b && true) ≡ b
and_true true = refl
and_true false = refl

both : {a b c d : Bool} → a ≡ b → c ≡ d → (a && c) ≡ (b && d)
both {a} {b} {c} {d} p q = ap (λ x. x && c) p ∙ ap (λ x. b && x) q

-- The values that the table of unified_config.h allows for a field.
abbrev pub allowed_in : String → List FieldMetadata → List String
allowed_in path [] = []
allowed_in path (field ∷ fields) =
    let rest = allowed_in path fields in
    if eqb_codes (codes field.path) (codes path) then field.allowed_values else rest

abbrev pub allowed : String → List String
allowed path = allowed_in path get_config_metadata

-- A number between 0 and 1, or NaN.
abbrev pub rate_fits : Double → Bool
rate_fits nan = true
rate_fits (infinity minus) = false
rate_fits (finite true significand exponent) = significand == 0
rate_fits (finite false significand (pos k)) = leb (significand * 2 ^ k) 1
rate_fits (finite false significand (negsuc k)) = leb significand (2 ^ (k + 1))

-- The values of each section that are no error. The table has none for writers and exporters.
abbrev pub thread_fits : ThreadConfig → Bool
thread_fits config =
    is_field config.queue_type (allowed "thread.queue_type") && not (config.max_queue_size == 0)

abbrev pub all_writers : List String → Bool
all_writers [] = true
all_writers (writer ∷ rest) =
    is_field writer ("console" ∷ "file" ∷ "rotating_file" ∷ "network" ∷ "json" ∷ [])
    && all_writers rest

abbrev pub logger_fits : LoggerConfig → Bool
logger_fits config = is_field config.level (allowed "logger.level") && all_writers config.writers

abbrev pub monitoring_fits : MonitoringConfig Double → Bool
monitoring_fits config =
    rate_fits config.tracing.sampling_rate
    && is_field config.tracing.exporter ("otlp" ∷ "jaeger" ∷ "zipkin" ∷ "console" ∷ [])

abbrev pub database_fits : DatabaseConfig → Bool
database_fits config =
    (is_empty config.backend || is_field config.backend (allowed "database.backend"))
    && (leb config.pool.min_size config.pool.max_size && not (config.pool.max_size == 0))

abbrev pub network_fits : NetworkConfig → Bool
network_fits config =
    is_field config.compression (allowed "network.compression")
    && is_field config.tls.version (allowed "network.tls.version")

not-ltb : (n m : ℕ) → not (ltb n m) ≡ leb m n
not-ltb n m = ground arith

rate_clean : (rate : Double) → not (less_than_zero rate || greater_than_one rate) ≡ rate_fits rate
rate_clean nan = refl
rate_clean (infinity true) = refl
rate_clean (infinity false) = refl
rate_clean (finite true significand exponent) = ground arith
rate_clean (finite false significand (pos k)) = not-ltb 1 (significand * 2 ^ k)
rate_clean (finite false significand (negsuc k)) = not-ltb (2 ^ (k + 1)) significand

thread_clean : (config : ThreadConfig) → clean (validate_thread_config config) ≡ thread_fits config
unfolding validate_thread_config
thread_clean config =
    valid_then (is_field config.queue_type queue_types) _ _ _
    ∙ ap (λ b. is_field config.queue_type queue_types && b)
        (error_last (config.max_queue_size == 0) _ _)

writers_clean : (ws : List String) → clean (validate_writers ws) ≡ all_writers ws
unfolding validate_writers
writers_clean [] = refl
writers_clean (writer ∷ rest) =
    valid_then (is_field writer writers) _ _ (validate_writers rest)
    ∙ ap (λ b. is_field writer writers && b) (writers_clean rest)

logger_clean : (config : LoggerConfig) → clean (validate_logger_config config) ≡ logger_fits config
unfolding validate_logger_config
logger_clean config =
    valid_then (is_field config.level levels) _ _ _
    ∙ ap (λ b. is_field config.level levels && b)
        (clean-append (validate_writers config.writers) _
          ∙ ap (λ b. clean (validate_writers config.writers) && b)
              (warning_last (config.async && ltb config.buffer_size 1024) _ _)
          ∙ and_true (clean (validate_writers config.writers))
          ∙ writers_clean config.writers)

monitoring_clean :
    (config : MonitoringConfig Double)
    → clean (validate_monitoring_config config) ≡ monitoring_fits config
unfolding validate_monitoring_config
monitoring_clean config =
    let rate = config.tracing.sampling_rate in
    error_then (less_than_zero rate || greater_than_one rate) _ _ _
    ∙ both (rate_clean rate) (
        valid_then (is_field config.tracing.exporter exporters) _ _ _
        ∙ ap (λ b. is_field config.tracing.exporter exporters && b)
            (warning_last (less_than_second config.metrics_interval) _ _)
        ∙ and_true (is_field config.tracing.exporter exporters))

backend_clean : (empty known : Bool) → not (not empty && not known) ≡ (empty || known)
backend_clean true known = refl
backend_clean false true = refl
backend_clean false false = refl

database_clean :
    (config : DatabaseConfig) → clean (validate_database_config config) ≡ database_fits config
unfolding validate_database_config
database_clean config =
    error_then (not (is_empty config.backend) && not (is_field config.backend backends)) _ _ _
    ∙ both (backend_clean (is_empty config.backend) (is_field config.backend backends)) (
        error_then (ltb config.pool.max_size config.pool.min_size) _ _ _
        ∙ both (not-ltb config.pool.max_size config.pool.min_size)
            (error_last (config.pool.max_size == 0) _ _))

network_clean :
    (config : NetworkConfig) → clean (validate_network_config config) ≡ network_fits config
unfolding validate_network_config
network_clean config =
    valid_then (is_field config.compression compressions) _ _ _
    ∙ ap (λ b. is_field config.compression compressions && b)
        (valid_then (is_field config.tls.version tls_versions) _ _ _
          ∙ ap (λ b. is_field config.tls.version tls_versions && b)
              (warning_then (ltb config.buffer_size 4096) _ _ _
                ∙ warning_last
                    (config.tls.enabled && config.tls.verify_peer && is_empty config.tls.ca_path) _
                    _)
          ∙ and_true (is_field config.tls.version tls_versions))

-- validate accepts a configuration exactly where the queue type, the level, the backend if one is
-- given, the compression and the TLS version are among the values that the table of unified_config.h
-- allows, every writer and the exporter are known, the sampling rate is a number between 0 and 1 or
-- NaN, neither the queue nor the pool has the size 0, and the pool's least size is not more than its
-- greatest: warnings never make it fail.
pub validate_exact :
    (config : UnifiedConfig Double)
    → is_ok (validate config) ≡ (
        thread_fits config.thread
        && (logger_fits config.logger
            && (monitoring_fits config.monitoring
                && (database_fits config.database && network_fits config.network))))
unfolding validate get_validation_issues
validate_exact config =
    let t = validate_thread_config config.thread in
    let l = validate_logger_config config.logger in
    let m = validate_monitoring_config config.monitoring in
    let d = validate_database_config config.database in
    let n = validate_network_config config.network in
    first_error-clean (t ++ (l ++ (m ++ (d ++ n))))
    ∙ clean-append t (l ++ (m ++ (d ++ n)))
    ∙ both (thread_clean config.thread) (
        clean-append l (m ++ (d ++ n))
        ∙ both (logger_clean config.logger) (
            clean-append m (d ++ n)
            ∙ both (monitoring_clean config.monitoring) (
                clean-append d n
                ∙ both (database_clean config.database) (network_clean config.network))))
