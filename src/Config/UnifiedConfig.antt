-- ===== src/Config/UnifiedConfig.antt =====
-- unified_config.h: the settings, their defaults and the table that describes them. A duration is its
-- milliseconds; `Double` is the type of a double, and `rate` its 0.1.
use common_system.Prelude.{ℕ, Bool, true, false, ◌||◌, List, [], ◌∷◌, String, ℤ, pos}
use common_system.Utils.Enums.{codes, eqb_codes}

pub record ThreadConfig : Type 0 where
  pub pool_size : ℕ
  pub queue_type : String
  pub max_queue_size : ℕ
  pub thread_name_prefix : String

abbrev pub default_thread_config : ThreadConfig
default_thread_config = record {
  pool_size = 0;
  queue_type = "lockfree";
  max_queue_size = 10000;
  thread_name_prefix = "worker";
}

pub record LoggerConfig : Type 0 where
  pub level : String
  pub writers : List String
  pub async : Bool
  pub buffer_size : ℕ
  pub file_path : String
  pub max_file_size : ℕ
  pub max_backup_files : ℕ
  pub format_pattern : String

abbrev pub default_logger_config : LoggerConfig
default_logger_config = record {
  level = "info";
  writers = "console" ∷ [];
  async = true;
  buffer_size = 8192;
  file_path = "./logs/app.log";
  max_file_size = 10485760;
  max_backup_files = 5;
  format_pattern = "[%Y-%m-%d %H:%M:%S.%e] [%l] [%t] %v";
}

pub record TracingConfig (Double : Type 0) : Type 0 where
  pub enabled : Bool
  pub sampling_rate : Double
  pub exporter : String
  pub endpoint : String

abbrev pub default_tracing_config : {Double : Type 0} → Double → TracingConfig Double
default_tracing_config rate = record {
  enabled = false;
  sampling_rate = rate;
  exporter = "otlp";
  endpoint = "http://localhost:4317";
}

pub record MonitoringConfig (Double : Type 0) : Type 0 where
  pub enabled : Bool
  pub metrics_interval : ℤ
  pub health_check_interval : ℤ
  pub tracing : TracingConfig Double
  pub prometheus_port : ℕ
  pub prometheus_path : String

abbrev pub default_monitoring_config : {Double : Type 0} → Double → MonitoringConfig Double
default_monitoring_config rate = record {
  enabled = true;
  metrics_interval = pos 5000;
  health_check_interval = pos 30000;
  tracing = default_tracing_config rate;
  prometheus_port = 9090;
  prometheus_path = "/metrics";
}

pub record PoolConfig : Type 0 where
  pub min_size : ℕ
  pub max_size : ℕ
  pub idle_timeout : ℤ
  pub acquire_timeout : ℤ

abbrev pub default_pool_config : PoolConfig
default_pool_config = record {
  min_size = 5;
  max_size = 20;
  idle_timeout = pos 60000;
  acquire_timeout = pos 5000;
}

pub record DatabaseConfig : Type 0 where
  pub backend : String
  pub connection_string : String
  pub pool : PoolConfig
  pub log_queries : Bool
  pub slow_query_threshold : ℤ

abbrev pub default_database_config : DatabaseConfig
default_database_config = record {
  backend = "";
  connection_string = "";
  pool = default_pool_config;
  log_queries = false;
  slow_query_threshold = pos 1000;
}

pub record TlsConfig : Type 0 where
  pub enabled : Bool
  pub version : String
  pub cert_path : String
  pub key_path : String
  pub ca_path : String
  pub verify_peer : Bool

abbrev pub default_tls_config : TlsConfig
default_tls_config = record {
  enabled = true;
  version = "1.3";
  cert_path = "";
  key_path = "";
  ca_path = "";
  verify_peer = true;
}

pub record NetworkConfig : Type 0 where
  pub tls : TlsConfig
  pub compression : String
  pub buffer_size : ℕ
  pub connect_timeout : ℤ
  pub io_timeout : ℤ
  pub keepalive_interval : ℤ
  pub max_connections : ℕ

abbrev pub default_network_config : NetworkConfig
default_network_config = record {
  tls = default_tls_config;
  compression = "lz4";
  buffer_size = 65536;
  connect_timeout = pos 5000;
  io_timeout = pos 30000;
  keepalive_interval = pos 15000;
  max_connections = 10000;
}

pub record UnifiedConfig (Double : Type 0) : Type 0 where
  pub thread : ThreadConfig
  pub logger : LoggerConfig
  pub monitoring : MonitoringConfig Double
  pub database : DatabaseConfig
  pub network : NetworkConfig

abbrev pub default_unified_config : {Double : Type 0} → Double → UnifiedConfig Double
default_unified_config rate = record {
  thread = default_thread_config;
  logger = default_logger_config;
  monitoring = default_monitoring_config rate;
  database = default_database_config;
  network = default_network_config;
}

pub record FieldMetadata : Type 0 where
  pub path : String
  pub description : String
  pub hot_reloadable : Bool
  pub env_var : String
  pub allowed_values : List String

abbrev pub get_config_metadata : List FieldMetadata
get_config_metadata =
    record {
      path = "thread.pool_size";
      description = "Number of worker threads (0 for auto)";
      hot_reloadable = false;
      env_var = "UNIFIED_THREAD_POOL_SIZE";
      allowed_values = [];
    }
    ∷ record {
      path = "thread.queue_type";
      description = "Task queue type";
      hot_reloadable = false;
      env_var = "UNIFIED_THREAD_QUEUE_TYPE";
      allowed_values = "mutex" ∷ "lockfree" ∷ "bounded" ∷ [];
    }
    ∷ record {
      path = "thread.max_queue_size";
      description = "Maximum task queue size";
      hot_reloadable = false;
      env_var = "UNIFIED_THREAD_MAX_QUEUE_SIZE";
      allowed_values = [];
    }
    ∷ record {
      path = "logger.level";
      description = "Log level";
      hot_reloadable = true;
      env_var = "UNIFIED_LOGGER_LEVEL";
      allowed_values = "trace" ∷ "debug" ∷ "info" ∷ "warn" ∷ "error" ∷ "critical" ∷ "off" ∷ [];
    }
    ∷ record {
      path = "logger.async";
      description = "Enable async logging";
      hot_reloadable = false;
      env_var = "UNIFIED_LOGGER_ASYNC";
      allowed_values = [];
    }
    ∷ record {
      path = "logger.buffer_size";
      description = "Async buffer size";
      hot_reloadable = false;
      env_var = "UNIFIED_LOGGER_BUFFER_SIZE";
      allowed_values = [];
    }
    ∷ record {
      path = "logger.file_path";
      description = "Log file path";
      hot_reloadable = true;
      env_var = "UNIFIED_LOGGER_FILE_PATH";
      allowed_values = [];
    }
    ∷ record {
      path = "monitoring.enabled";
      description = "Enable monitoring";
      hot_reloadable = false;
      env_var = "UNIFIED_MONITORING_ENABLED";
      allowed_values = [];
    }
    ∷ record {
      path = "monitoring.metrics_interval";
      description = "Metrics collection interval (ms)";
      hot_reloadable = true;
      env_var = "UNIFIED_MONITORING_METRICS_INTERVAL_MS";
      allowed_values = [];
    }
    ∷ record {
      path = "monitoring.tracing.enabled";
      description = "Enable distributed tracing";
      hot_reloadable = false;
      env_var = "UNIFIED_MONITORING_TRACING_ENABLED";
      allowed_values = [];
    }
    ∷ record {
      path = "monitoring.tracing.sampling_rate";
      description = "Trace sampling rate";
      hot_reloadable = true;
      env_var = "UNIFIED_MONITORING_TRACING_SAMPLING_RATE";
      allowed_values = [];
    }
    ∷ record {
      path = "database.backend";
      description = "Database backend type";
      hot_reloadable = false;
      env_var = "UNIFIED_DATABASE_BACKEND";
      allowed_values = "postgresql" ∷ "mysql" ∷ "sqlite" ∷ "mongodb" ∷ "redis" ∷ [];
    }
    ∷ record {
      path = "database.connection_string";
      description = "Database connection string";
      hot_reloadable = false;
      env_var = "UNIFIED_DATABASE_CONNECTION_STRING";
      allowed_values = [];
    }
    ∷ record {
      path = "database.pool.min_size";
      description = "Minimum pool size";
      hot_reloadable = false;
      env_var = "UNIFIED_DATABASE_POOL_MIN_SIZE";
      allowed_values = [];
    }
    ∷ record {
      path = "database.pool.max_size";
      description = "Maximum pool size";
      hot_reloadable = false;
      env_var = "UNIFIED_DATABASE_POOL_MAX_SIZE";
      allowed_values = [];
    }
    ∷ record {
      path = "network.tls.enabled";
      description = "Enable TLS";
      hot_reloadable = false;
      env_var = "UNIFIED_NETWORK_TLS_ENABLED";
      allowed_values = [];
    }
    ∷ record {
      path = "network.tls.version";
      description = "TLS version";
      hot_reloadable = false;
      env_var = "UNIFIED_NETWORK_TLS_VERSION";
      allowed_values = "1.2" ∷ "1.3" ∷ [];
    }
    ∷ record {
      path = "network.compression";
      description = "Compression algorithm";
      hot_reloadable = false;
      env_var = "UNIFIED_NETWORK_COMPRESSION";
      allowed_values = "none" ∷ "lz4" ∷ "gzip" ∷ "deflate" ∷ "zstd" ∷ [];
    }
    ∷ record {
      path = "network.buffer_size";
      description = "I/O buffer size";
      hot_reloadable = false;
      env_var = "UNIFIED_NETWORK_BUFFER_SIZE";
      allowed_values = [];
    }
    ∷ []

abbrev pub is_field : String → List String → Bool
is_field field_path [] = false
is_field field_path (field ∷ fields) =
    eqb_codes (codes field_path) (codes field) || is_field field_path fields

unfoldable pub is_hot_reloadable : String → Bool
is_hot_reloadable field_path = is_field field_path (
    "logger.level" ∷ "logger.file_path" ∷ "monitoring.metrics_interval"
    ∷ "monitoring.tracing.sampling_rate" ∷ [])
