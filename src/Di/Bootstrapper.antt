-- ===== src/Di/Bootstrapper.antt =====
-- unified_bootstrapper.h. A name is a number, `text` its characters, and `cleanup` the number of
-- "service_container_cleanup". A registration function acts on the global container. A shutdown hook
-- is a number, and `run` what it does to the container, be it that it throws, which is ignored; none
-- is the empty hook of setup_default_shutdown_hooks. A VoidResult has a value or an error. The
-- mutex makes every method one step. register_optional_services has code for dynamic modules only: its
-- conditional parts are empty. The signal handler and `request_shutdown` set one flag. Not modelled: a
-- registration function that throws, which leaves the method.
pub mod Hooks
pub mod Valid
use Prim.Native.String.{◌++◌ as concat}
use common_system.Prelude.{
  ℕ, ◌-◌, Bool, true, false, Option, none, some, List, [], ◌∷◌, ◌++◌, map, reverse, String, ℤ, neg,
  leb, ◌==◌, if◌then◌else◌,
}
use common_system.Prelude.Maps.{Map, has_key}
use common_system.Prelude.Sets.{keys, erase_first}
use common_system.Di.Container
use common_system.Di.Container.{Container}
use common_system.Result.Core.{Result, ok, err, plain_error, ErrorInfo}

pub record BootstrapperOptions : Type 0 where
  pub enable_logging : Bool
  pub enable_monitoring : Bool
  pub enable_database : Bool
  pub enable_network : Bool
  pub config_path : String
  pub shutdown_timeout : ℕ
  pub register_signal_handlers : Bool

abbrev pub default_options : BootstrapperOptions
default_options = record {
  enable_logging = true;
  enable_monitoring = true;
  enable_database = false;
  enable_network = false;
  config_path = "";
  shutdown_timeout = 30000;
  register_signal_handlers = true;
}

abbrev pub Answer : Type 0
Answer = Result (Unit {0})

abbrev pub RegistrationFn : Type 0
RegistrationFn = Container → Answer × Container

-- module_entry, by its name in the map.
pub record Module : Type 0 where
  pub registration_fn : RegistrationFn
  pub services_registered : Bool

-- The static members, and the global container that they work on.
pub record Bootstrapper : Type 0 where
  pub initialized : Bool
  pub shutdown_requested : Bool
  pub options : BootstrapperOptions
  pub shutdown_hooks : Map (Option ℕ)
  pub modules : Map Module
  pub container : Container

unfoldable pub new_process : Container → Bootstrapper
new_process c = record {
  initialized = false;
  shutdown_requested = false;
  options = default_options;
  shutdown_hooks = [];
  modules = [];
  container = c;
}

abbrev pub failure : ℤ → String → Answer
failure code message = err (plain_error code message "di::unified_bootstrapper")

abbrev pub registered : Module → Module
registered m = record m { services_registered = true }

abbrev pub prefix_modules :
    ℕ → Module → Answer × Map Module × Container → Answer × Map Module × Container
prefix_modules name m (answer, rest, c) = (answer, (name, m) ∷ rest, c)

abbrev pub unmark : Map Module → Map Module
unmark [] = []
unmark ((name, m) ∷ rest) = (name, record m { services_registered = false }) ∷ unmark rest

-- initialize() once the services are registered, with what the loop leaves.
abbrev pub finish : ℕ → Bootstrapper → Answer × Map Module × Container → Answer × Bootstrapper
finish cleanup b (answer, modules, c) = elim answer.error_ [
  | some e ↦ (answer, record b { modules = unmark modules; container = (Container.clear c).1 })
  | none ↦ (
    ok tt,
    record b {
      modules = modules;
      container = c;
      shutdown_hooks = b.shutdown_hooks ++ (cleanup, none) ∷ [];
      initialized = true;
      shutdown_requested = false;
    },
  )
]

abbrev pub add_module : ℕ → RegistrationFn → Bool → Bootstrapper → Bootstrapper
add_module name fn done b = record b {
  modules = b.modules ++ (name, record { registration_fn = fn; services_registered = done }) ∷ [];
}

-- register_module() of an initialized bootstrapper, for a new name, with what the function answers.
abbrev pub keep_module :
    ℕ → RegistrationFn → Bootstrapper → Answer × Container → Answer × Bootstrapper
keep_module name fn b (answer, c) = elim answer.error_ [
  | some e ↦ (answer, record b { container = c })
  | none ↦ (ok tt, add_module name fn true (record b { container = c }))
]

module _ (text : ℕ → String) where
  abbrev pub module_failure : ℕ → ErrorInfo → Answer
  module_failure name e =
      failure e.code
        (concat "Module '" (concat (text name) (concat "' registration failed: " e.message)))

  -- The loop over the modules, with the modules and the container that it leaves.
  unfoldable pub register_optional_services :
      Map Module → Container → Answer × Map Module × Container
  register_optional_services [] c = (ok tt, [], c)
  register_optional_services ((name, m) ∷ rest) c = elim m.services_registered [
    | true ↦ prefix_modules name m (register_optional_services rest c)
    | false ↦ elim (m.registration_fn c).0.error_ [
      | some e ↦ (module_failure name e, (name, m) ∷ rest, (m.registration_fn c).1)
      | none ↦
          prefix_modules name (registered m)
            (register_optional_services rest (m.registration_fn c).1)
    ]
  ]

  unfoldable pub initialize : ℕ → BootstrapperOptions → Bootstrapper → Answer × Bootstrapper
  unfolding register_optional_services
  initialize cleanup opts b =
      if b.initialized
      then (ok tt, b)
      else finish cleanup (record b { options = opts })
          (register_optional_services b.modules b.container)

  unfoldable pub register_shutdown_hook : ℕ → ℕ → Bootstrapper → Answer × Bootstrapper
  register_shutdown_hook name hook b =
      if b.initialized
      then (if has_key name b.shutdown_hooks
          then (failure (neg 7) (concat "Shutdown hook already registered: " (text name)), b)
          else (ok tt, record b { shutdown_hooks = b.shutdown_hooks ++ (name, some hook) ∷ [] }))
      else (failure (neg 6) "System is not initialized", b)

  unfoldable pub unregister_shutdown_hook : ℕ → Bootstrapper → Answer × Bootstrapper
  unregister_shutdown_hook name b =
      if has_key name b.shutdown_hooks
      then (ok tt, record b { shutdown_hooks = erase_first name b.shutdown_hooks })
      else (failure (neg 2) (concat "Shutdown hook not found: " (text name)), b)

  unfoldable pub register_module : ℕ → RegistrationFn → Bootstrapper → Answer × Bootstrapper
  register_module name fn b =
      if has_key name b.modules
      then (failure (neg 7) (concat "Module already registered: " (text name)), b)
      else if b.initialized
      then keep_module name fn b (fn b.container)
      else (ok tt, add_module name fn false b)

  unfoldable pub unregister_module : ℕ → Bootstrapper → Answer × Bootstrapper
  unregister_module name b =
      if has_key name b.modules
      then (ok tt, record b { modules = erase_first name b.modules })
      else (failure (neg 2) (concat "Module not found: " (text name)), b)

unfoldable pub registered_modules : Bootstrapper → List ℕ
registered_modules b = keys b.modules

unfoldable pub is_module_registered : ℕ → Bootstrapper → Bool
is_module_registered name b = has_key name b.modules

module _ (run : ℕ → ℕ → Container → Container) where
  abbrev pub run_hook : Option ℕ → ℕ → Container → Container
  run_hook none remaining c = c
  run_hook (some hook) remaining c = run hook remaining c

  abbrev pub call_hook : ℕ × Option ℕ → ℕ → Bootstrapper → Bootstrapper
  call_hook (name, hook) remaining b = record b { container = run_hook hook remaining b.container }

  -- The loop over the hooks, last first. `elapsed` has the milliseconds since the start that each
  -- iteration reads; no reading is left only where there are fewer of them than hooks.
  unfoldable pub execute_shutdown_hooks : ℕ → Map (Option ℕ) → List ℕ → Bootstrapper → Bootstrapper
  execute_shutdown_hooks timeout [] elapsed b = b
  execute_shutdown_hooks timeout (hook ∷ hooks) [] b = b
  execute_shutdown_hooks timeout (hook ∷ hooks) (now ∷ elapsed) b = elim (leb timeout now) [
    | true ↦ b
    | false ↦ execute_shutdown_hooks timeout hooks elapsed (call_hook hook (timeout - now) b)
  ]

  unfoldable pub shutdown : ℕ → List ℕ → Bootstrapper → Answer × Bootstrapper
  unfolding execute_shutdown_hooks
  shutdown timeout elapsed b =
      if b.initialized
      then (
        ok tt,
        let ended =
              execute_shutdown_hooks timeout (reverse b.shutdown_hooks) elapsed
                (record b { shutdown_requested = true }) in
            record ended {
              container = (Container.clear ended.container).1;
              shutdown_hooks = [];
              modules = [];
              initialized = false;
              shutdown_requested = false;
              options = default_options;
            },
      )
      else (failure (neg 6) "System is not initialized", b)

  unfoldable pub request_shutdown : Bool → List ℕ → Bootstrapper → Bootstrapper
  unfolding shutdown
  request_shutdown trigger elapsed b =
      let asked = record b { shutdown_requested = true } in
      elim trigger [
        | true ↦ (shutdown asked.options.shutdown_timeout elapsed asked).1
        | false ↦ asked
      ]
