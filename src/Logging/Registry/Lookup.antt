-- ===== src/Logging/Registry/Lookup.antt =====
-- global_logger_registry.h: reading, creation from a factory, clearing and freezing.
use common_system.Prelude.{
  ℕ, ◌+◌, ◌%◌, ◌^◌, Bool, true, false, ◌||◌, Option, none, some, [], length,
}
use common_system.Prelude.Maps.{has_key, at, put, drop}
use common_system.Logging.Audit.{clear_loggers, freeze_logger_registry}
use common_system.Logging.Registry.{Logger, LoggerRegistry, audit, is_set}

-- What a lookup answers: a logger, or the NullLogger that all lookups share.
pub data Found : Type 0 where
  logger : Logger → Found
  null_logger : Found

abbrev pub or_null : Option Logger × LoggerRegistry → Found × LoggerRegistry
or_null (none, r) = (null_logger, r)
or_null (some l, r) = (logger l, r)

-- A factory is called: what it answers, and the registry that has counted the call.
abbrev pub keep_logger : ℕ → Option Logger → LoggerRegistry → Option Logger × LoggerRegistry
keep_logger name none r = (none, r)
keep_logger name (some l) r =
    (some l, record r { loggers = put name l r.loggers; factories = drop name r.factories })

unfoldable pub create_from_factory : ℕ → LoggerRegistry → Option Logger × LoggerRegistry
create_from_factory name r = elim (at name r.loggers) [
  | some l ↦ (some l, r)
  | none ↦ elim (at name r.factories) [
    | none ↦ (none, r)
    | some f ↦ keep_logger name (f r.calls) (record r { calls = r.calls + 1 })
  ]
]

unfoldable pub get_logger : ℕ → LoggerRegistry → Found × LoggerRegistry
unfolding create_from_factory
get_logger name r = elim (at name r.loggers) [
  | some l ↦ (logger l, r)
  | none ↦ or_null (create_from_factory name r)
]

abbrev pub keep_default : Option Logger → LoggerRegistry → Option Logger × LoggerRegistry
keep_default none r = (none, r)
keep_default (some l) r = (some l, record r { default_logger = some l; default_factory = none })

unfoldable pub create_default_from_factory : LoggerRegistry → Option Logger × LoggerRegistry
create_default_from_factory r = elim r.default_logger [
  | some l ↦ (some l, r)
  | none ↦ elim r.default_factory [
    | none ↦ (none, r)
    | some f ↦ keep_default (f r.calls) (record r { calls = r.calls + 1 })
  ]
]

unfoldable pub get_default_logger : LoggerRegistry → Found × LoggerRegistry
unfolding create_default_from_factory
get_default_logger r = elim r.default_logger [
  | some l ↦ (logger l, r)
  | none ↦ or_null (create_default_from_factory r)
]

unfoldable pub has_logger : ℕ → LoggerRegistry → Bool
has_logger name r = has_key name r.loggers || has_key name r.factories

unfoldable pub has_default_logger : LoggerRegistry → Bool
has_default_logger r = is_set r.default_logger || is_set r.default_factory

unfoldable pub size : LoggerRegistry → ℕ
size r = (length r.loggers + length r.factories) % 2 ^ 64

unfoldable pub clear : LoggerRegistry → LoggerRegistry
clear r = elim r.frozen [
  | true ↦ audit clear_loggers "" false "Registry is frozen" r
  | false ↦
      audit clear_loggers "" true ""
        (record r { loggers = []; factories = []; default_logger = none; default_factory = none })
]

unfoldable pub freeze : LoggerRegistry → LoggerRegistry
freeze r = audit freeze_logger_registry "" true "" (record r { frozen = true })
