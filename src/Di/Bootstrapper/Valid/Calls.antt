-- ===== src/Di/Bootstrapper/Valid/Calls.antt =====
-- What holds of the bootstrapper after any sequence of calls.
use common_system.Prelude.{ℕ, Bool, true, false, refl, inl, inr, List, [], ◌∷◌, String, Bool-cases}
use common_system.Di.Container.{Container}
use common_system.Di.Bootstrapper.{
  Bootstrapper, BootstrapperOptions, RegistrationFn, new_process, initialize,
  register_shutdown_hook, unregister_shutdown_hook, register_module, unregister_module, shutdown,
  request_shutdown,
}
use common_system.Di.Bootstrapper.Valid.{
  IsValid, start-IsValid, hook-IsValid, unhook-IsValid, add-IsValid, take-IsValid,
}

asked-IsValid : (b : Bootstrapper) → IsValid b → IsValid (record b { shutdown_requested = true })
asked-IsValid b v = record {
  once_hooks = v.once_hooks;
  once_modules = v.once_modules;
  idle = v.idle;
  marks = v.marks;
}

module _ (run : ℕ → ℕ → Container → Container) where
  stop-IsValid :
      (timeout : ℕ) (elapsed : List ℕ) (b : Bootstrapper)
      → IsValid b
      → IsValid (shutdown run timeout elapsed b).1
  unfolding shutdown
  stop-IsValid timeout elapsed b v = elim (Bool-cases b.initialized) [
    | inl up ↦ simp up (record { once_hooks = tt; once_modules = tt; idle = λ _. refl; marks = tt })
    | inr down ↦ simp down v
  ]

  request-IsValid :
      (trigger : Bool) (elapsed : List ℕ) (b : Bootstrapper)
      → IsValid b
      → IsValid (request_shutdown run trigger elapsed b)
  unfolding request_shutdown
  request-IsValid true elapsed b v =
      stop-IsValid b.options.shutdown_timeout elapsed (record b { shutdown_requested = true })
        (asked-IsValid b v)
  request-IsValid false elapsed b v = asked-IsValid b v

-- One call of a method that changes the state, and what it leaves.
pub data Operation : Type 0 where
  start : ℕ → BootstrapperOptions → Operation
  stop : ℕ → List ℕ → Operation
  add_hook : ℕ → ℕ → Operation
  take_hook : ℕ → Operation
  add : ℕ → RegistrationFn → Operation
  take : ℕ → Operation
  request : Bool → List ℕ → Operation

module _ (text : ℕ → String) (run : ℕ → ℕ → Container → Container) where
  abbrev pub operate : Operation → Bootstrapper → Bootstrapper
  operate (start cleanup opts) b = (initialize text cleanup opts b).1
  operate (stop timeout elapsed) b = (shutdown run timeout elapsed b).1
  operate (add_hook name hook) b = (register_shutdown_hook text name hook b).1
  operate (take_hook name) b = (unregister_shutdown_hook text name b).1
  operate (add name fn) b = (register_module text name fn b).1
  operate (take name) b = (unregister_module text name b).1
  operate (request trigger elapsed) b = request_shutdown run trigger elapsed b

  unfoldable pub operate_all : List Operation → Bootstrapper → Bootstrapper
  operate_all [] b = b
  operate_all (o ∷ os) b = operate_all os (operate o b)

  operate-IsValid : (o : Operation) (b : Bootstrapper) → IsValid b → IsValid (operate o b)
  operate-IsValid (start cleanup opts) b v = start-IsValid text cleanup opts b v
  operate-IsValid (stop timeout elapsed) b v = stop-IsValid run timeout elapsed b v
  operate-IsValid (add_hook name hook) b v = hook-IsValid text name hook b v
  operate-IsValid (take_hook name) b v = unhook-IsValid text name b v
  operate-IsValid (add name fn) b v = add-IsValid text name fn b v
  operate-IsValid (take name) b v = take-IsValid text name b v
  operate-IsValid (request trigger elapsed) b v = request-IsValid run trigger elapsed b v

  operate_all-kept :
      (os : List Operation) (b : Bootstrapper) → IsValid b → IsValid (operate_all os b)
  unfolding operate_all
  operate_all-kept [] b v = v
  operate_all-kept (o ∷ os) b v = operate_all-kept os (operate o b) (operate-IsValid o b v)

  -- After any calls of the methods in a new process, in any order and with any results, the names of
  -- the shutdown hooks and of the modules stand once, with the cleanup hook that initialize adds
  -- without a test; while the bootstrapper is not initialized there is no hook; and the mark of every
  -- module, that its services are registered, is the flag of the bootstrapper.
  pub operate_all-IsValid :
      (c : Container) (os : List Operation) → IsValid (operate_all os (new_process c))
  unfolding new_process
  operate_all-IsValid c os =
      operate_all-kept os (new_process c)
        (record { once_hooks = tt; once_modules = tt; idle = λ _. refl; marks = tt })
