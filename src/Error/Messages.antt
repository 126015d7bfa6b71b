-- ===== src/Error/Messages.antt =====
-- error_codes.h: get_error_message and get_category_name.
use common_system.Prelude.{not, List, [], ◌∷◌, String, ℤ, pos, neg, ltb_int, eqb_int, if◌then◌else◌}
use common_system.Error.Codes.{
  thread_system, logger_system, monitoring_system, container_system, database_system,
  network_system, pacs_system, code_of, category_base,
}

-- The cases of the `switch`, in order.
unfoldable pub messages : List (ℤ × String)
unfolding category_base
messages =
    (pos 0, "Success")
    ∷ (neg 1, "Invalid argument")
    ∷ (neg 2, "Not found")
    ∷ (neg 3, "Permission denied")
    ∷ (neg 4, "Timeout")
    ∷ (neg 5, "Cancelled")
    ∷ (neg 6, "Not initialized")
    ∷ (neg 7, "Already exists")
    ∷ (neg 8, "Out of memory")
    ∷ (neg 9, "I/O error")
    ∷ (neg 10, "Network error")
    ∷ (neg 11, "Registry is frozen")
    ∷ (neg 99, "Internal error")
    ∷ (neg 50, "Service not registered in container")
    ∷ (neg 51, "Circular dependency detected")
    ∷ (neg 52, "Service already registered")
    ∷ (neg 53, "Factory error during instantiation")
    ∷ (neg 54, "Invalid service lifetime configuration")
    ∷ (neg 55, "Scoped service resolved from root container")
    ∷ (code_of thread_system 0, "Thread pool full")
    ∷ (code_of thread_system 1, "Thread pool shutdown")
    ∷ (code_of thread_system 40, "Job rejected")
    ∷ (code_of thread_system 41, "Job timeout")
    ∷ (code_of logger_system 0, "Failed to open log file")
    ∷ (code_of logger_system 1, "Failed to write to log file")
    ∷ (code_of logger_system 3, "Log file rotation failed")
    ∷ (code_of monitoring_system 0, "Metric not found")
    ∷ (code_of monitoring_system 20, "Metric storage full")
    ∷ (code_of container_system 0, "Value type mismatch")
    ∷ (code_of container_system 20, "Serialization failed")
    ∷ (code_of container_system 40, "Memory pool exhausted")
    ∷ (code_of database_system 0, "Database connection failed")
    ∷ (code_of database_system 20, "Connection pool exhausted")
    ∷ (code_of database_system 40, "Database query failed")
    ∷ (code_of network_system 0, "Network connection failed")
    ∷ (code_of network_system 40, "Network send failed")
    ∷ (code_of network_system 60, "Server not started")
    ∷ (code_of pacs_system 0, "DICOM file not found")
    ∷ (code_of pacs_system 1, "Failed to read DICOM file")
    ∷ (code_of pacs_system 2, "Failed to write DICOM file")
    ∷ (code_of pacs_system 3, "Invalid DICOM file format")
    ∷ (code_of pacs_system 4, "Missing DICM prefix")
    ∷ (code_of pacs_system 5, "Invalid File Meta Information")
    ∷ (code_of pacs_system 6, "Missing Transfer Syntax")
    ∷ (code_of pacs_system 7, "Unsupported Transfer Syntax")
    ∷ (code_of pacs_system 20, "DICOM element not found")
    ∷ (code_of pacs_system 21, "Value conversion failed")
    ∷ (code_of pacs_system 40, "DICOM decode error")
    ∷ (code_of pacs_system 41, "DICOM encode error")
    ∷ (code_of pacs_system 60, "DICOM association rejected")
    ∷ (code_of pacs_system 80, "DICOM storage failed")
    ∷ []

select : ℤ → List (ℤ × String) → String
select code [] = "Unknown error"
select code ((c, m) ∷ rest) = if eqb_int code c then m else select code rest

unfoldable pub get_error_message : ℤ → String
unfolding messages select
get_error_message code = select code messages

-- `code >= 0`, then `code > base` down the systems.
unfoldable pub get_category_name : ℤ → String
unfolding category_base
get_category_name code =
    if not (ltb_int code (pos 0))
    then "Success"
    else if ltb_int (code_of thread_system 0) code
    then "Common"
    else if ltb_int (code_of logger_system 0) code
    then "ThreadSystem"
    else if ltb_int (code_of monitoring_system 0) code
    then "LoggerSystem"
    else if ltb_int (code_of container_system 0) code
    then "MonitoringSystem"
    else if ltb_int (code_of database_system 0) code
    then "ContainerSystem"
    else if ltb_int (code_of network_system 0) code
    then "DatabaseSystem"
    else if ltb_int (code_of pacs_system 0) code
    then "NetworkSystem"
    else "PACSSystem"
