-- ===== src/Di/Bootstrapper/Valid.antt =====
-- What holds of the bootstrapper after any calls in a new process.
pub mod Calls
use common_system.Prelude.{
  ℕ, Bool, true, false, ◌≡◌, refl, sym, ap, subst, ◌∙◌, inl, inr, Option, none, some, List, [], ◌∷◌,
  ◌++◌, String, arith, Bool-cases, Option-cases, if◌then◌else◌, reverse,
}
use common_system.Prelude.Maps.{Map, has, has_key}
use common_system.Prelude.Sets.{
  Once, keys, has-keys, keys-append, Once-concat, erase_first, Once-erase, Once-entry,
}
use common_system.Di.Container.{Container}
use common_system.Di.Bootstrapper.{
  Bootstrapper, BootstrapperOptions, Module, RegistrationFn, Answer, new_process, initialize,
  finish, unmark, register_optional_services, register_shutdown_hook, unregister_shutdown_hook,
  register_module, unregister_module, execute_shutdown_hooks, shutdown, request_shutdown,
  module_failure, registered, add_module, keep_module,
}
use common_system.Result.Core.{Result, ok, err}

-- Every module has been run, or none.
abbrev pub Marked : Bool → Map Module → Type 0
Marked flag [] = Unit
Marked flag (entry ∷ m) = (entry.1.services_registered ≡ flag) × Marked flag m

-- The names of the hooks and of the modules stand once; the hooks are there only while initialized;
-- a module is marked as registered exactly while initialized.
pub record IsValid (b : Bootstrapper) : Type 0 where
  pub once_hooks : Once (keys b.shutdown_hooks)
  pub once_modules : Once (keys b.modules)
  pub idle : b.initialized ≡ false → b.shutdown_hooks ≡ []
  pub marks : Marked b.initialized b.modules

keys-unmark : (m : Map Module) → keys (unmark m) ≡ keys m
keys-unmark [] = refl
keys-unmark (entry ∷ m) = ap (λ s. entry.0 ∷ s) (keys-unmark m)

Marked-unmark : (m : Map Module) → Marked false (unmark m)
Marked-unmark [] = tt
Marked-unmark (entry ∷ m) = (refl, Marked-unmark m)

Marked-append :
    (flag : Bool) (m n : Map Module) → Marked flag m → Marked flag n → Marked flag (m ++ n)
Marked-append flag [] n p q = q
Marked-append flag (entry ∷ m) n p q = (p.0, Marked-append flag m n p.1 q)

Marked-erase :
    (flag : Bool) (k : ℕ) (m : Map Module) → Marked flag m → Marked flag (erase_first k m)
unfolding erase_first
Marked-erase flag k [] p = tt
Marked-erase flag k (entry ∷ m) p = ground (arith, p, Marked-erase flag k m)

-- The loop keeps the names, and marks every module where it gives no error.
abbrev pub Looped : Map Module → Answer × Map Module × Container → Type 0
Looped m (answer, m', c) = (keys m' ≡ keys m) × (answer.error_ ≡ none → Marked true m')

finish-IsValid :
    (cleanup : ℕ) (b : Bootstrapper) (m : Map Module) (out : Answer × Map Module × Container)
    → b.initialized ≡ false
    → b.shutdown_hooks ≡ []
    → Once (keys m)
    → Looped m out
    → IsValid (finish cleanup b out).1
unfolding has
finish-IsValid cleanup b m (answer, m', c) fresh empty once (same, marked) =
    elim (Option-cases answer.error_) [
      | inl fine ↦ simp fine (record {
        once_hooks = rw empty (refl, tt);
        once_modules = subst Once (sym same) once;
        idle = λ down. absurd (cc down);
        marks = marked fine;
      })
      | inr (e, failed) ↦ simp failed (record {
        once_hooks = rw empty tt;
        once_modules = subst Once (sym (keys-unmark m' ∙ same)) once;
        idle = λ _. empty;
        marks = subst (λ f. Marked f (unmark m')) (sym fresh) (Marked-unmark m');
      })
    ]

moved-IsValid :
    (c : Container) (b : Bootstrapper) → IsValid b → IsValid (record b { container = c })
moved-IsValid c b v = record {
  once_hooks = v.once_hooks;
  once_modules = v.once_modules;
  idle = v.idle;
  marks = v.marks;
}

added-IsValid :
    (name : ℕ) (fn : RegistrationFn) (done : Bool) (b : Bootstrapper)
    → IsValid b
    → b.initialized ≡ done
    → has_key name b.modules ≡ false
    → IsValid (add_module name fn done b)
added-IsValid name fn done b v flag new =
    let m : Module = record { registration_fn = fn; services_registered = done } in
    record {
      once_hooks = v.once_hooks;
      once_modules = Once-entry name m b.modules v.once_modules new;
      idle = v.idle;
      marks = Marked-append b.initialized b.modules ((name, m) ∷ []) v.marks (sym flag, tt);
    }

keep-IsValid :
    (name : ℕ) (fn : RegistrationFn) (b : Bootstrapper) (out : Answer × Container)
    → IsValid b
    → b.initialized ≡ true
    → has_key name b.modules ≡ false
    → IsValid (keep_module name fn b out).1
keep-IsValid name fn b (answer, c) v up new =
    let kept = moved-IsValid c b v in
    elim (Option-cases answer.error_) [
      | inl fine ↦ simp fine (added-IsValid name fn true (record b { container = c }) kept up new)
      | inr (e, failed) ↦ simp failed kept
    ]

module _ (text : ℕ → String) where
  loop-Looped : (m : Map Module) (c : Container) → Looped m (register_optional_services text m c)
  unfolding register_optional_services err
  loop-Looped [] c = (refl, λ _. tt)
  loop-Looped ((name, m) ∷ rest) c = elim (Bool-cases m.services_registered) [
    | inl done ↦
        let (same, marked) = loop-Looped rest c in
        rw (done, register_optional_services) (ap (λ s. name ∷ s) same, λ fine. (done, marked fine))
    | inr todo ↦ elim (Option-cases (m.registration_fn c).0.error_) [
      | inl fine ↦
          let (same, marked) = loop-Looped rest (m.registration_fn c).1 in
          rw (todo, register_optional_services)
            (rw (fine, register_optional_services)
              (ap (λ s. name ∷ s) same, λ none_. (refl, marked none_)))
      | inr (e, failed) ↦
          rw (todo, register_optional_services)
            (rw (failed, register_optional_services) (refl, λ none_. absurd (cc none_)))
    ]
  ]

  pub start-IsValid :
      (cleanup : ℕ) (opts : BootstrapperOptions) (b : Bootstrapper)
      → IsValid b
      → IsValid (initialize text cleanup opts b).1
  unfolding initialize
  start-IsValid cleanup opts b v = elim (Bool-cases b.initialized) [
    | inl up ↦ simp (up) v
    | inr fresh ↦
        let next =
          finish cleanup (record b { options = opts })
            (register_optional_services text b.modules b.container) in
        subst (λ flag. IsValid (if flag then (ok tt, b) else next).1) (sym fresh)
          (finish-IsValid cleanup (record b { options = opts }) b.modules
            (register_optional_services text b.modules b.container) fresh (v.idle fresh)
            v.once_modules (loop-Looped b.modules b.container))
  ]

  pub hook-IsValid :
      (name hook : ℕ) (b : Bootstrapper)
      → IsValid b
      → IsValid (register_shutdown_hook text name hook b).1
  unfolding register_shutdown_hook
  hook-IsValid name hook b v = elim (Bool-cases b.initialized) [
    | inl up ↦ elim (Bool-cases (has_key name b.shutdown_hooks)) [
      | inl old ↦ simp (up, old) v
      | inr new ↦
          simp (up, new)
            (record {
              once_hooks = Once-entry name (some hook) b.shutdown_hooks v.once_hooks new;
              once_modules = v.once_modules;
              idle = λ down. absurd (cc down);
              marks = subst (λ f. Marked f b.modules) up v.marks;
            })
    ]
    | inr down ↦ simp down v
  ]

  pub unhook-IsValid :
      (name : ℕ) (b : Bootstrapper) → IsValid b → IsValid (unregister_shutdown_hook text name b).1
  unfolding unregister_shutdown_hook erase_first
  unhook-IsValid name b v = elim (Bool-cases (has_key name b.shutdown_hooks)) [
    | inl old ↦ simp old (record {
      once_hooks = Once-erase name b.shutdown_hooks v.once_hooks;
      once_modules = v.once_modules;
      idle = λ down. rw (v.idle down, erase_first) refl;
      marks = v.marks;
    })
    | inr new ↦ simp new v
  ]

  pub add-IsValid :
      (name : ℕ) (fn : RegistrationFn) (b : Bootstrapper)
      → IsValid b
      → IsValid (register_module text name fn b).1
  unfolding register_module
  add-IsValid name fn b v = elim (Bool-cases (has_key name b.modules)) [
    | inl old ↦ simp old v
    | inr new ↦
        let stored : Answer × Bootstrapper = (ok tt, add_module name fn false b) in
        simp new (elim (Bool-cases b.initialized) [
          | inl up ↦
              subst
                (λ flag.
                  IsValid (if flag then keep_module name fn b (fn b.container) else stored).1)
                (sym up) (keep-IsValid name fn b (fn b.container) v up new)
          | inr down ↦
              subst
                (λ flag.
                  IsValid (if flag then keep_module name fn b (fn b.container) else stored).1)
                (sym down) (added-IsValid name fn false b v down new)
        ])
  ]

  pub take-IsValid :
      (name : ℕ) (b : Bootstrapper) → IsValid b → IsValid (unregister_module text name b).1
  unfolding unregister_module
  take-IsValid name b v = elim (Bool-cases (has_key name b.modules)) [
    | inl old ↦ simp old (record {
      once_hooks = v.once_hooks;
      once_modules = Once-erase name b.modules v.once_modules;
      idle = v.idle;
      marks = Marked-erase b.initialized name b.modules v.marks;
    })
    | inr new ↦ simp new v
  ]
