-- ===== src/Tests/Lifecycle.antt =====
-- Registries and bootstrappers on concrete runs.
use common_system.Prelude.{
  ℕ, ◌+◌, Bool, true, false, ◌≡◌, refl, some, none, List, [], ◌∷◌, String, ◌==◌, if◌then◌else◌,
}
use common_system.Prelude.Maps.{has_key, at, put, drop}
use common_system.Prelude.Sets.{erase_first}
use common_system.Result.Core.{ok}
use common_system.Di.Container
use common_system.Di.Container.{Container, new_container}
use common_system.Di.Bootstrapper
use common_system.Di.Bootstrapper.{Bootstrapper, Answer, default_options, new_process, run_hook}
use common_system.Di.Bootstrapper.Valid.{IsValid}
use common_system.Di.Bootstrapper.Valid.Calls.{
  Operation, start, add_hook, add, take, operate_all, operate_all-IsValid,
}
use common_system.Bootstrap.System
use common_system.Bootstrap.System.{SystemBootstrapper, World, Registries, new_bootstrapper}
use common_system.Bootstrap.System.Steps.{Steps}
use common_system.Logging.Audit
use common_system.Logging.Registry.{LoggerFactory, LoggerRegistry, new_registry, register_logger}
use common_system.Logging.Registry.Lookup.{
  logger, null_logger, get_logger, create_from_factory, freeze,
}
use common_system.Logging.Registry.Frozen.{
  registers, unregisters, gets, clears, run_calls, frozen_logger_stable,
}

abbrev name_text : ℕ → String
name_text k = if k == 1 then "main" else "other"

-- A factory that makes another logger at each call.
abbrev fresh_logger : LoggerFactory
fresh_logger calls = some (70 + calls)

abbrev locked : LoggerRegistry
locked = record new_registry { factories = (1, fresh_logger) ∷ []; frozen = true }

frozen_creates : (get_logger 1 locked).0 ≡ logger 70
unfolding get_logger create_from_factory at new_registry
frozen_creates = refl

missing_null : (get_logger 2 locked).0 ≡ null_logger
unfolding get_logger create_from_factory at new_registry
missing_null = refl

frozen_logger_stable_example :
    (get_logger 1 (
      run_calls name_text
        (clears ∷ unregisters 1 ∷ registers 1 (some 5) ∷ gets 1 ∷ [])
        (get_logger 1 locked).1)).0
    ≡ logger 70
unfolding new_registry
frozen_logger_stable_example =
    frozen_logger_stable name_text 1 70
      (clears ∷ unregisters 1 ∷ registers 1 (some 5) ∷ gets 1 ∷ []) locked refl frozen_creates

abbrev quiet : ℕ → Registries → Bool × Registries
quiet callback r = (true, r)

-- Every callback but 8 throws.
abbrev throws_later : ℕ → Registries → Bool × Registries
throws_later callback r = (callback == 8, r)

abbrev world : World
world = record { registry = new_registry; container = new_container; journal = [] }

abbrev named : SystemBootstrapper
named = record new_bootstrapper {
  named_logger_factories = (1, some fresh_logger) ∷ (2, none) ∷ [];
  init_callbacks = 8 ∷ 9 ∷ [];
  shutdown_callbacks = 5 ∷ 6 ∷ [];
  auto_freeze_logger_registry = true;
}

bootstrap_runs :
    let (result, b, w) = System.initialize quiet name_text named world in
    (result ≡ some (ok tt))
    × (w.journal ≡ 8 ∷ 9 ∷ [])
    × (w.registry.loggers ≡ (1, 70) ∷ [])
    × (w.registry.frozen ≡ true)
unfolding System.initialize System.register_loggers System.register_named System.execute_callbacks
    System.call_back new_registry new_container new_bootstrapper register_logger put drop freeze
    Audit.log_event ok
bootstrap_runs = (refl, refl, refl, refl)

bootstrap_throws :
    let (result, b, w) = System.initialize throws_later name_text named world in
    (result ≡ none)
    × (b.initialized ≡ false)
    × (w.registry.loggers ≡ (1, 70) ∷ [])
    × (w.registry.frozen ≡ false)
unfolding System.initialize System.register_loggers System.register_named System.execute_callbacks
    System.call_back new_registry new_container new_bootstrapper register_logger put drop freeze
    Audit.log_event ok
bootstrap_throws = (refl, refl, refl, refl)

abbrev running : SystemBootstrapper
running = record named { initialized = true }

-- A hook makes as many objects as it has milliseconds.
abbrev busy_hook : ℕ → ℕ → Container → Container
busy_hook hook remaining c = record c { made = c.made + remaining }

abbrev agrees : Container → Answer × Container
agrees c = (ok tt, c)

-- The cleanup hook is 0; the second of three readings is past the timeout.
abbrev started : Bootstrapper
started = record (new_process new_container) {
  initialized = true;
  shutdown_hooks = (0, none) ∷ (1, some 4) ∷ (2, some 5) ∷ [];
}

shutdown_runs :
    (Bootstrapper.shutdown busy_hook 100 (10 ∷ 40 ∷ 120 ∷ []) started).1.container.made ≡ 150
unfolding Bootstrapper.shutdown Bootstrapper.execute_shutdown_hooks new_process new_container
    Container.clear
shutdown_runs = refl

abbrev calls : List Operation
calls = add 7 agrees ∷ start 0 default_options ∷ add_hook 1 4 ∷ take 7 ∷ add 8 agrees ∷ []

calls_run :
    (operate_all name_text busy_hook calls (new_process new_container)).modules
    ≡ (8, record { registration_fn = agrees; services_registered = true }) ∷ []
unfolding operate_all Bootstrapper.initialize Bootstrapper.register_optional_services
    Bootstrapper.register_module Bootstrapper.register_shutdown_hook Bootstrapper.unregister_module
    new_process has_key ok erase_first
calls_run = refl

operate_all-IsValid_example :
    IsValid (operate_all name_text busy_hook calls (new_process new_container))
operate_all-IsValid_example = operate_all-IsValid name_text busy_hook new_container calls
