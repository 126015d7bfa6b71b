-- ===== src/Logging/Registry.antt =====
-- global_logger_registry.h: loggers and factories by name. A name is a number, 0 the empty one, and
-- `text` its characters; a logger is a pointer, none where it is null. A factory may answer
-- differently at each call, so it is a function of the number of calls before. The locks make a
-- method one step, but get_logger is two: a look under the shared lock, then the creation under the
-- other one.
pub mod Lookup
pub mod Frozen
use Prim.Native.String.{◌++◌ as concat}
use common_system.Prelude.{
  ℕ, ◌+◌, ◌%◌, ◌^◌, Bool, true, false, ◌||◌, Option, none, some, List, [], ◌∷◌, String, ℤ, neg,
  ◌==◌, if◌then◌else◌, length,
}
use common_system.Prelude.Maps.{Map, has_key, at, put, drop}
use common_system.Logging.Audit.{
  Action, Event, AuditLog, log_event, register_logger as act_register,
  unregister_logger as act_unregister, set_default_logger as act_default,
  register_factory as act_factory, set_default_factory as act_default_factory, clear_loggers,
  freeze_logger_registry,
}
use common_system.Result.Core.{Result, ok, err, plain_error}

abbrev pub Logger : Type 0
Logger = ℕ

abbrev pub LoggerFactory : Type 0
LoggerFactory = ℕ → Option Logger

pub record LoggerRegistry : Type 0 where
  pub loggers : Map Logger
  pub factories : Map LoggerFactory
  pub default_logger : Option Logger
  pub default_factory : Option LoggerFactory
  pub frozen : Bool
  pub calls : ℕ
  pub audit_log : AuditLog

-- The registry of a new process.
unfoldable pub new_registry : LoggerRegistry
new_registry = record {
  loggers = [];
  factories = [];
  default_logger = none;
  default_factory = none;
  frozen = false;
  calls = 0;
  audit_log = record { events = []; enabled = true };
}

abbrev pub Done : Type 0
Done = Result (Unit {0}) × LoggerRegistry

abbrev pub audit : Action → String → Bool → String → LoggerRegistry → LoggerRegistry
audit action target_name success error_message r = record r {
  audit_log =
      log_event
        (record {
          action = action;
          target_name = target_name;
          success = success;
          error_message = error_message;
        })
        r.audit_log;
}

-- A refusal: the event, the error, nothing else.
abbrev pub refuse : Action → String → String → ℤ → String → LoggerRegistry → Done
refuse action target_name error_message code message r = (
  err (plain_error code message "interfaces::GlobalLoggerRegistry"),
  audit action target_name false error_message r,
)

abbrev pub is_set : {A : Type 0} → Option A → Bool
is_set none = false
is_set (some _) = true

module _ (text : ℕ → String) where
  unfoldable pub register_logger : ℕ → Option Logger → LoggerRegistry → Done
  register_logger name logger r =
      if r.frozen
      then refuse act_register (text name) "Registry is frozen" (neg 11)
          "Cannot register logger: registry is frozen" r
      else if name == 0
      then refuse act_register (text name) "Logger name cannot be empty" (neg 1)
          "Logger name cannot be empty" r
      else elim logger [
        | none ↦
            refuse act_register (text name) "Logger instance cannot be null" (neg 1)
              "Logger instance cannot be null" r
        | some l ↦ (
          ok tt,
          audit act_register (text name) true ""
              (record r { loggers = put name l r.loggers; factories = drop name r.factories }),
        )
      ]

  unfoldable pub unregister_logger : ℕ → LoggerRegistry → Done
  unregister_logger name r =
      if r.frozen
      then refuse act_unregister (text name) "Registry is frozen" (neg 11)
          "Cannot unregister logger: registry is frozen" r
      else (
        ok tt,
        audit act_unregister (text name) true ""
            (record r { loggers = drop name r.loggers; factories = drop name r.factories }),
      )

  unfoldable pub register_factory : ℕ → Option LoggerFactory → LoggerRegistry → Done
  register_factory name factory r =
      if r.frozen
      then refuse act_factory (text name) "Registry is frozen" (neg 11)
          "Cannot register factory: registry is frozen" r
      else if name == 0
      then refuse act_factory (text name) "Logger name cannot be empty" (neg 1)
          "Logger name cannot be empty" r
      else elim factory [
        | none ↦
            refuse act_factory (text name) "Factory function cannot be null" (neg 1)
              "Factory function cannot be null" r
        | some f ↦
            if has_key name r.loggers
            then refuse act_factory (text name)
                (concat "Logger already registered with name: " (text name)) (neg 7)
                (concat "Logger already registered with name: " (text name)) r
            else (
              ok tt,
              audit act_factory (text name) true ""
                  (record r { factories = put name f r.factories }),
            )
      ]

unfoldable pub set_default_logger : Option Logger → LoggerRegistry → Done
set_default_logger logger r =
    if r.frozen
    then refuse act_default "default" "Registry is frozen" (neg 11)
        "Cannot set default logger: registry is frozen" r
    else elim logger [
      | none ↦
          refuse act_default "default" "Default logger instance cannot be null" (neg 1)
            "Default logger instance cannot be null" r
      | some l ↦ (
        ok tt,
        audit act_default "default" true ""
            (record r { default_logger = some l; default_factory = none }),
      )
    ]

unfoldable pub set_default_factory : Option LoggerFactory → LoggerRegistry → Done
set_default_factory factory r =
    if r.frozen
    then refuse act_default_factory "default" "Registry is frozen" (neg 11)
        "Cannot set default factory: registry is frozen" r
    else elim factory [
      | none ↦
          refuse act_default_factory "default" "Factory function cannot be null" (neg 1)
            "Factory function cannot be null" r
      | some f ↦
          if is_set r.default_logger
          then refuse act_default_factory "default" "Default logger already registered" (neg 7)
              "Default logger already registered" r
          else (
            ok tt,
            audit act_default_factory "default" true "" (record r { default_factory = some f }),
          )
    ]
