-- ===== src/Logging/Audit.antt =====
-- registry_audit_log.h: events of the logger registry and of the service container. The place in the
-- source that an event carries is left out; its time is an argument of the queries.
use common_system.Prelude.{
  ℕ, Bool, ◌&&◌, List, [], ◌∷◌, ◌++◌, String, length, leb, keep, ◌==◌, if◌then◌else◌,
}

pub data Action : Type 0 where
  register_logger unregister_logger set_default_logger register_factory set_default_factory
        clear_loggers freeze_logger_registry register_service unregister_service clear_services
        freeze_service_container :
      Action

-- The number of the enumerator.
abbrev pub action_number : Action → ℕ
action_number register_logger = 0
action_number unregister_logger = 1
action_number set_default_logger = 2
action_number register_factory = 3
action_number set_default_factory = 4
action_number clear_loggers = 5
action_number freeze_logger_registry = 6
action_number register_service = 7
action_number unregister_service = 8
action_number clear_services = 9
action_number freeze_service_container = 10

unfoldable pub to_string : Action → String
to_string register_logger = "register_logger"
to_string unregister_logger = "unregister_logger"
to_string set_default_logger = "set_default_logger"
to_string register_factory = "register_factory"
to_string set_default_factory = "set_default_factory"
to_string clear_loggers = "clear_loggers"
to_string freeze_logger_registry = "freeze_logger_registry"
to_string register_service = "register_service"
to_string unregister_service = "unregister_service"
to_string clear_services = "clear_services"
to_string freeze_service_container = "freeze_service_container"

-- registry_event
pub record Event : Type 0 where
  pub action : Action
  pub target_name : String
  pub success : Bool
  pub error_message : String

pub record AuditLog : Type 0 where
  pub events : List Event
  pub enabled : Bool

unfoldable pub log_event : Event → AuditLog → AuditLog
log_event event log = if log.enabled then record log { events = log.events ++ event ∷ [] } else log

unfoldable pub get_events_by_action : Action → AuditLog → List Event
get_events_by_action action log =
    keep (λ event. action_number event.action == action_number action) log.events

module _ (timestamp : Event → ℕ) where
  unfoldable pub get_events_in_range : ℕ → ℕ → AuditLog → List Event
  get_events_in_range from to log =
      keep (λ event. leb from (timestamp event) && leb (timestamp event) to) log.events

unfoldable pub event_count : AuditLog → ℕ
event_count log = length log.events

unfoldable pub set_enabled : Bool → AuditLog → AuditLog
set_enabled flag log = record log { enabled = flag }

unfoldable pub clear : AuditLog → AuditLog
clear log = record log { events = [] }
