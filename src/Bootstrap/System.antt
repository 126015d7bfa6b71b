-- ===== src/Bootstrap/System.antt =====
-- system_bootstrapper.h. It drives the global logger registry and the global service container, which
-- stand in a world beside it. A callback is a number, and `run` what it does to the two registries
-- and whether it returns or throws; the journal lists the callbacks that have been called. A null
-- factory or callback is none.
pub mod Callbacks
pub mod Loggers
pub mod Steps
use Prim.Native.String.{◌++◌ as concat}
use common_system.Prelude.{
  ℕ, ◌+◌, Bool, true, false, Option, none, some, List, [], ◌∷◌, ◌++◌, reverse, String, neg,
  if◌then◌else◌,
}
use common_system.Prelude.Maps.{Map, put}
use common_system.Di.Container
use common_system.Di.Container.{Container}
use common_system.Logging.Registry.{
  Logger, LoggerFactory, LoggerRegistry, Done, register_logger, set_default_logger,
}
use common_system.Logging.Registry.Lookup
use common_system.Result.Core.{Result, ok, err, plain_error}

pub record SystemBootstrapper : Type 0 where
  pub default_logger_factory : Option LoggerFactory
  pub named_logger_factories : Map (Option LoggerFactory)
  pub init_callbacks : List ℕ
  pub shutdown_callbacks : List ℕ
  pub auto_freeze_logger_registry : Bool
  pub auto_freeze_service_container : Bool
  pub initialized : Bool

pub record World : Type 0 where
  pub registry : LoggerRegistry
  pub container : Container
  pub journal : List ℕ

unfoldable pub new_bootstrapper : SystemBootstrapper
new_bootstrapper = record {
  default_logger_factory = none;
  named_logger_factories = [];
  init_callbacks = [];
  shutdown_callbacks = [];
  auto_freeze_logger_registry = false;
  auto_freeze_service_container = false;
  initialized = false;
}

unfoldable pub with_default_logger : Option LoggerFactory → SystemBootstrapper → SystemBootstrapper
with_default_logger factory b = record b { default_logger_factory = factory }

-- A name that is there gets the new factory.
unfoldable pub with_logger : ℕ → Option LoggerFactory → SystemBootstrapper → SystemBootstrapper
with_logger name factory b = record b {
  named_logger_factories = put name factory b.named_logger_factories;
}

unfoldable pub on_initialize : Option ℕ → SystemBootstrapper → SystemBootstrapper
on_initialize none b = b
on_initialize (some callback) b = record b { init_callbacks = b.init_callbacks ++ callback ∷ [] }

unfoldable pub on_shutdown : Option ℕ → SystemBootstrapper → SystemBootstrapper
on_shutdown none b = b
on_shutdown (some callback) b = record b {
  shutdown_callbacks = b.shutdown_callbacks ++ callback ∷ [];
}

unfoldable pub with_auto_freeze : Bool → Bool → SystemBootstrapper → SystemBootstrapper
with_auto_freeze freeze_logger_registry freeze_service_container b = record b {
  auto_freeze_logger_registry = freeze_logger_registry;
  auto_freeze_service_container = freeze_service_container;
}

-- A factory is called.
abbrev pub called : LoggerRegistry → LoggerRegistry
called r = record r { calls = r.calls + 1 }

abbrev pub fails : String → LoggerRegistry → Done
fails message r = (err (plain_error (neg 99) message "bootstrap::SystemBootstrapper"), r)

-- `if (result.is_err()) return result;`
abbrev pub or_return : (LoggerRegistry → Done) → Done → Done
or_return next (result, r) = elim result.error_ [ some e ↦ (result, r) | none ↦ next r ]

-- The same, where the loggers are cleared first.
abbrev pub or_clear : (LoggerRegistry → Done) → Done → Done
or_clear next (result, r) = elim result.error_ [ some e ↦ (result, Lookup.clear r) | none ↦ next r ]

module _ (text : ℕ → String) where
  -- What a factory has made for a name.
  abbrev pub enter : ℕ → (LoggerRegistry → Done) → Option Logger → LoggerRegistry → Done
  enter name next none r =
      fails (concat "Logger factory for '" (concat (text name) "' returned null")) r
  enter name next (some l) r = or_clear next (register_logger text name (some l) r)

  -- The loop over the named factories.
  unfoldable pub register_named : Map (Option LoggerFactory) → LoggerRegistry → Done
  register_named [] r = (ok tt, r)
  register_named ((name, none) ∷ rest) r = register_named rest r
  register_named ((name, some factory) ∷ rest) r =
      enter name (register_named rest) (factory r.calls) (called r)

  abbrev pub enter_default : (LoggerRegistry → Done) → Option Logger → LoggerRegistry → Done
  enter_default next none r = fails "Default logger factory returned null" r
  enter_default next (some l) r = or_return next (set_default_logger (some l) r)

  unfoldable pub register_loggers : SystemBootstrapper → LoggerRegistry → Done
  unfolding register_named
  register_loggers b r = elim b.default_logger_factory [
    | none ↦ register_named b.named_logger_factories r
    | some factory ↦
        enter_default (register_named b.named_logger_factories) (factory r.calls) (called r)
  ]

abbrev pub Registries : Type 0
Registries = LoggerRegistry × Container

module _ (run : ℕ → Registries → Bool × Registries) where
  unfoldable pub call_back : ℕ → World → Bool × World
  call_back callback w = (
    (run callback (w.registry, w.container)).0,
    record {
      registry = (run callback (w.registry, w.container)).1.0;
      container = (run callback (w.registry, w.container)).1.1;
      journal = w.journal ++ callback ∷ [];
    },
  )

  -- An exception leaves the loop.
  abbrev pub proceed : (World → Bool × World) → Bool × World → Bool × World
  proceed next (true, w) = next w
  proceed next (false, w) = (false, w)

  -- execute_init_callbacks, and execute_shutdown_callbacks on the reversed list.
  unfoldable pub execute_callbacks : List ℕ → World → Bool × World
  execute_callbacks [] w = (true, w)
  execute_callbacks (callback ∷ callbacks) w =
      proceed (execute_callbacks callbacks) (call_back callback w)

  abbrev pub freeze_loggers : Bool → World → World
  freeze_loggers false w = w
  freeze_loggers true w = record w { registry = Lookup.freeze w.registry }

  abbrev pub freeze_services : Bool → World → World
  freeze_services false w = w
  freeze_services true w = record w { container = Container.freeze w.container }

  -- The result is none where the exception of a callback leaves the method.
  abbrev pub Lifecycle : Type 0
  Lifecycle = Option (Result (Unit {0})) × SystemBootstrapper × World

  -- initialize() once the callbacks have been called.
  abbrev pub complete : SystemBootstrapper → Bool × World → Lifecycle
  complete b (true, w) = (
    some (ok tt),
    record b { initialized = true },
    freeze_services b.auto_freeze_service_container
        (freeze_loggers b.auto_freeze_logger_registry w),
  )
  complete b (false, w) = (none, b, w)

  abbrev pub continue : SystemBootstrapper → World → Done → Lifecycle
  continue b w (result, r) = elim result.error_ [
    | some e ↦ (some result, b, record w { registry = r })
    | none ↦ complete b (execute_callbacks b.init_callbacks (record w { registry = r }))
  ]

  unfoldable pub initialize : (ℕ → String) → SystemBootstrapper → World → Lifecycle
  unfolding register_loggers execute_callbacks
  initialize text b w =
      if b.initialized
      then (
        some (
            err (
              plain_error (neg 7) "SystemBootstrapper already initialized"
                "bootstrap::SystemBootstrapper")),
        b,
        w,
      )
      else continue b w (register_loggers text b w.registry)

  -- shutdown() once the callbacks have been called; false where an exception leaves it.
  abbrev pub finish_shutdown : SystemBootstrapper → Bool × World → Bool × SystemBootstrapper × World
  finish_shutdown b (true, w) =
      (true, record b { initialized = false }, record w { registry = Lookup.clear w.registry })
  finish_shutdown b (false, w) = (false, b, w)

  unfoldable pub shutdown : SystemBootstrapper → World → Bool × SystemBootstrapper × World
  unfolding execute_callbacks
  shutdown b w =
      if b.initialized
      then finish_shutdown b (execute_callbacks (reverse b.shutdown_callbacks) w)
      else (true, b, w)

  abbrev pub forget_settings : Bool × SystemBootstrapper × World → Bool × SystemBootstrapper × World
  forget_settings (true, b, w) = (true, record new_bootstrapper { initialized = b.initialized }, w)
  forget_settings (false, b, w) = (false, b, w)

  unfoldable pub reset : SystemBootstrapper → World → Bool × SystemBootstrapper × World
  unfolding shutdown new_bootstrapper
  reset b w = forget_settings (shutdown b w)
