-- ===== src/Bootstrap/System/Steps.antt =====
-- What initialize and shutdown do in order, and what a failure or an exception leaves.
use common_system.Prelude.{
  ℕ, Bool, true, false, ◌||◌, ◌≡◌, ◌⊎◌, none, some, List, [], ◌++◌, reverse,
}
use common_system.Bootstrap.System.{SystemBootstrapper, World, Registries, Lifecycle}
use common_system.Di.Container
use common_system.Logging.Registry.{Done}
use common_system.Logging.Registry.Lookup
use common_system.Result.Core.{ok, is_err}
use common_system.Bootstrap.System.Callbacks.{registries, effects, all_return}

module _ (run : ℕ → Registries → Bool × Registries) where
  -- initialize returns: no callback is left out, and the registries are as the callbacks leave them,
  -- but for the freezes.
  abbrev pub Started :
      SystemBootstrapper → Registries → List ℕ → Registries → Lifecycle run → Type 0
  Started b before skipped after out =
      (skipped ≡ [])
      × (all_return run b.init_callbacks before ≡ true)
      × (out.0 ≡ some (ok tt))
      × (out.1 ≡ record b { initialized = true })
      × (out.2.registry.loggers ≡ after.0.loggers)
      × (out.2.registry.default_logger ≡ after.0.default_logger)
      × (out.2.registry.frozen ≡ (b.auto_freeze_logger_registry || after.0.frozen))
      × (out.2.container.frozen ≡ (b.auto_freeze_service_container || after.1.frozen))

  -- An exception leaves initialize: what was done stays.
  abbrev pub Thrown : SystemBootstrapper → Registries → Registries → Lifecycle run → Type 0
  Thrown b before after out =
      (all_return run b.init_callbacks before ≡ false)
      × (out.0 ≡ none)
      × (out.1 ≡ b)
      × (registries out.2 ≡ after)

  abbrev pub Completes : SystemBootstrapper → World → Lifecycle run → Type 0
  Completes b w out =
      (called : List ℕ) × (skipped : List ℕ) × (b.init_callbacks ≡ called ++ skipped)
      × (out.2.journal ≡ w.journal ++ called)
      × (Started b (registries w) skipped (effects run called (registries w)) out
          ⊎ Thrown b (registries w) (effects run called (registries w)) out)

  -- What initialize leaves, by what the registration of the loggers has left.
  abbrev pub Steps : SystemBootstrapper → World → Done → Lifecycle run → Type 0
  Steps b w done out =
      ((is_err done.0 ≡ false) × Completes b (record w { registry = done.1 }) out)
      ⊎ ((is_err done.0 ≡ true)
          × (out.0 ≡ some done.0)
          × (out.1 ≡ b)
          × (out.2 ≡ record w { registry = done.1 }))

  -- shutdown returns: no callback is left out, and the loggers are gone or kept.
  abbrev pub Stopped : List ℕ → Registries → Bool × SystemBootstrapper × World → Type 0
  Stopped skipped after out =
      (skipped ≡ [])
      × (out.0 ≡ true)
      × (out.1.initialized ≡ false)
      × (out.2.container ≡ after.1)
      × (((after.0.frozen ≡ false)
            × (out.2.registry.loggers ≡ [])
            × (out.2.registry.default_logger ≡ none))
          ⊎ ((after.0.frozen ≡ true)
              × (out.2.registry.loggers ≡ after.0.loggers)
              × (out.2.registry.default_logger ≡ after.0.default_logger)))

  -- What shutdown leaves; where an exception leaves it, the bootstrapper stays initialized.
  abbrev pub Ended : SystemBootstrapper → World → Bool × SystemBootstrapper × World → Type 0
  Ended b w out =
      (called : List ℕ) × (skipped : List ℕ) × (reverse b.shutdown_callbacks ≡ called ++ skipped)
      × (out.2.journal ≡ w.journal ++ called)
      × (out.0 ≡ all_return run (reverse b.shutdown_callbacks) (registries w))
      × (Stopped skipped (effects run called (registries w)) out
          ⊎ ((out.0 ≡ false)
              × (out.1 ≡ b)
              × (registries out.2 ≡ effects run called (registries w))))
