-- ===== src/Error/Codes.antt =====
-- include/kcenon/common/error/error_codes.h: the categories and every code, one table for each
-- namespace, in the order of the source. A code is a negative `int`.
use common_system.Prelude.{ℕ, ◌+◌, List, [], ◌∷◌, String, ℤ, pos, neg}

-- enum class category, by its value's absolute value.
pub data Category : Type 0 where
  success common thread_system logger_system monitoring_system container_system : Category
  database_system network_system pacs_system : Category

unfoldable pub category_base : Category → ℕ
category_base success = 0
category_base common = 1
category_base thread_system = 100
category_base logger_system = 200
category_base monitoring_system = 300
category_base container_system = 400
category_base database_system = 500
category_base network_system = 600
category_base pacs_system = 700

-- `base - k` in a namespace whose base is the category's value.
abbrev pub code_of : Category → ℕ → ℤ
unfolding category_base
code_of c k = neg (category_base c + k)

unfoldable pub common_codes : List (String × ℤ)
common_codes =
    ("success", pos 0)
    ∷ ("invalid_argument", neg 1)
    ∷ ("not_found", neg 2)
    ∷ ("permission_denied", neg 3)
    ∷ ("timeout", neg 4)
    ∷ ("cancelled", neg 5)
    ∷ ("not_initialized", neg 6)
    ∷ ("already_exists", neg 7)
    ∷ ("out_of_memory", neg 8)
    ∷ ("io_error", neg 9)
    ∷ ("network_error", neg 10)
    ∷ ("registry_frozen", neg 11)
    ∷ ("internal_error", neg 99)
    ∷ ("di_service_not_registered", neg 50)
    ∷ ("di_circular_dependency", neg 51)
    ∷ ("di_already_registered", neg 52)
    ∷ ("di_factory_error", neg 53)
    ∷ ("di_invalid_lifetime", neg 54)
    ∷ ("di_scoped_from_root", neg 55)
    ∷ []

unfoldable pub thread_system_codes : List (String × ℤ)
unfolding category_base
thread_system_codes =
    ("pool_full", code_of thread_system 0)
    ∷ ("pool_shutdown", code_of thread_system 1)
    ∷ ("pool_not_started", code_of thread_system 2)
    ∷ ("invalid_pool_size", code_of thread_system 3)
    ∷ ("worker_failed", code_of thread_system 20)
    ∷ ("worker_not_found", code_of thread_system 21)
    ∷ ("worker_busy", code_of thread_system 22)
    ∷ ("job_rejected", code_of thread_system 40)
    ∷ ("job_timeout", code_of thread_system 41)
    ∷ ("job_cancelled", code_of thread_system 42)
    ∷ ("invalid_job", code_of thread_system 43)
    ∷ ("queue_full", code_of thread_system 60)
    ∷ ("queue_empty", code_of thread_system 61)
    ∷ ("queue_stopped", code_of thread_system 62)
    ∷ []

unfoldable pub logger_system_codes : List (String × ℤ)
unfolding category_base
logger_system_codes =
    ("file_open_failed", code_of logger_system 0)
    ∷ ("file_write_failed", code_of logger_system 1)
    ∷ ("file_close_failed", code_of logger_system 2)
    ∷ ("file_rotation_failed", code_of logger_system 3)
    ∷ ("file_permission_denied", code_of logger_system 4)
    ∷ ("writer_not_initialized", code_of logger_system 20)
    ∷ ("writer_stopped", code_of logger_system 21)
    ∷ ("writer_full", code_of logger_system 22)
    ∷ ("async_writer_failed", code_of logger_system 23)
    ∷ ("invalid_format", code_of logger_system 40)
    ∷ ("format_error", code_of logger_system 41)
    ∷ ("invalid_filter", code_of logger_system 60)
    ∷ ("filter_rejected", code_of logger_system 61)
    ∷ []

unfoldable pub monitoring_system_codes : List (String × ℤ)
unfolding category_base
monitoring_system_codes =
    ("metric_not_found", code_of monitoring_system 0)
    ∷ ("invalid_metric_type", code_of monitoring_system 1)
    ∷ ("metric_collection_failed", code_of monitoring_system 2)
    ∷ ("storage_full", code_of monitoring_system 20)
    ∷ ("storage_error", code_of monitoring_system 21)
    ∷ ("event_publish_failed", code_of monitoring_system 40)
    ∷ ("event_subscribe_failed", code_of monitoring_system 41)
    ∷ ("invalid_event_type", code_of monitoring_system 42)
    ∷ ("profiler_not_enabled", code_of monitoring_system 60)
    ∷ ("profiler_error", code_of monitoring_system 61)
    ∷ []

unfoldable pub container_system_codes : List (String × ℤ)
unfolding category_base
container_system_codes =
    ("value_type_mismatch", code_of container_system 0)
    ∷ ("invalid_value_type", code_of container_system 1)
    ∷ ("value_conversion_failed", code_of container_system 2)
    ∷ ("serialization_failed", code_of container_system 20)
    ∷ ("deserialization_failed", code_of container_system 21)
    ∷ ("invalid_format", code_of container_system 22)
    ∷ ("pool_exhausted", code_of container_system 40)
    ∷ ("allocation_failed", code_of container_system 41)
    ∷ ("invalid_allocation_size", code_of container_system 42)
    ∷ ("key_not_found", code_of container_system 60)
    ∷ ("duplicate_key", code_of container_system 61)
    ∷ ("container_full", code_of container_system 62)
    ∷ []

unfoldable pub database_system_codes : List (String × ℤ)
unfolding category_base
database_system_codes =
    ("connection_failed", code_of database_system 0)
    ∷ ("connection_lost", code_of database_system 1)
    ∷ ("connection_timeout", code_of database_system 2)
    ∷ ("invalid_connection_string", code_of database_system 3)
    ∷ ("pool_exhausted", code_of database_system 20)
    ∷ ("pool_shutdown", code_of database_system 21)
    ∷ ("pool_timeout", code_of database_system 22)
    ∷ ("query_failed", code_of database_system 40)
    ∷ ("query_syntax_error", code_of database_system 41)
    ∷ ("query_timeout", code_of database_system 42)
    ∷ ("transaction_failed", code_of database_system 60)
    ∷ ("transaction_rolled_back", code_of database_system 61)
    ∷ ("transaction_timeout", code_of database_system 62)
    ∷ []

unfoldable pub network_system_codes : List (String × ℤ)
unfolding category_base
network_system_codes =
    ("connection_failed", code_of network_system 0)
    ∷ ("connection_refused", code_of network_system 1)
    ∷ ("connection_timeout", code_of network_system 2)
    ∷ ("connection_closed", code_of network_system 3)
    ∷ ("session_not_found", code_of network_system 20)
    ∷ ("session_expired", code_of network_system 21)
    ∷ ("invalid_session", code_of network_system 22)
    ∷ ("send_failed", code_of network_system 40)
    ∷ ("receive_failed", code_of network_system 41)
    ∷ ("message_too_large", code_of network_system 42)
    ∷ ("server_not_started", code_of network_system 60)
    ∷ ("server_already_running", code_of network_system 61)
    ∷ ("bind_failed", code_of network_system 62)
    ∷ []

unfoldable pub pacs_system_codes : List (String × ℤ)
unfolding category_base
pacs_system_codes =
    ("file_not_found", code_of pacs_system 0)
    ∷ ("file_read_error", code_of pacs_system 1)
    ∷ ("file_write_error", code_of pacs_system 2)
    ∷ ("invalid_dicom_file", code_of pacs_system 3)
    ∷ ("missing_dicm_prefix", code_of pacs_system 4)
    ∷ ("invalid_meta_info", code_of pacs_system 5)
    ∷ ("missing_transfer_syntax", code_of pacs_system 6)
    ∷ ("unsupported_transfer_syntax", code_of pacs_system 7)
    ∷ ("element_not_found", code_of pacs_system 20)
    ∷ ("value_conversion_error", code_of pacs_system 21)
    ∷ ("invalid_vr", code_of pacs_system 22)
    ∷ ("invalid_tag", code_of pacs_system 23)
    ∷ ("data_size_mismatch", code_of pacs_system 24)
    ∷ ("decode_error", code_of pacs_system 40)
    ∷ ("encode_error", code_of pacs_system 41)
    ∷ ("compression_error", code_of pacs_system 42)
    ∷ ("decompression_error", code_of pacs_system 43)
    ∷ ("association_rejected", code_of pacs_system 60)
    ∷ ("association_aborted", code_of pacs_system 61)
    ∷ ("dimse_error", code_of pacs_system 62)
    ∷ ("pdu_error", code_of pacs_system 63)
    ∷ ("storage_failed", code_of pacs_system 80)
    ∷ ("retrieve_failed", code_of pacs_system 81)
    ∷ ("query_failed", code_of pacs_system 82)
    ∷ []
