-- ===== src/Di/Container/Resolve.antt =====
-- service_container::resolve_with_detection and service_scope. A factory is given the root
-- container, so what it resolves in turn has no scope, also under a scope's own resolution.
pub mod Preserved
pub mod Invoke
pub mod Kept
pub mod Total
pub mod Singleton
pub mod Lifetimes
use Prim.Native.String.{◌++◌ as concat}
use common_system.Prelude.{
  ℕ, suc, zero, ◌+◌, Bool, true, false, Option, none, some, List, [], ◌∷◌, ◌++◌, String, ℤ, neg,
  ◌==◌, if◌then◌else◌,
}
use common_system.Result.Core.{Result, ok, err, plain_error}
use common_system.Di.Container.Registry.{
  Instance, Factory, answer, construct, throws, ask, Lifetime, singleton, transient, scoped,
  ServiceEntry, Services, Container, find,
}

abbrev pub mem : ℕ → List ℕ → Bool
mem k [] = false
mem k (j ∷ xs) = if j == k then true else mem k xs

-- std::unordered_set::erase
abbrev pub erase_key : ℕ → List ℕ → List ℕ
erase_key k [] = []
erase_key k (j ∷ xs) = let rest = erase_key k xs in if j == k then rest else j ∷ rest

unfoldable pub is_resolving : ℕ → Container → Bool
is_resolving k c = mem k c.stack

-- insert into the set, push_back on the vector.
unfoldable pub push_resolution : ℕ → Container → Container
push_resolution k c = record c {
  stack = if mem k c.stack then c.stack else k ∷ c.stack;
  order = k ∷ c.order;
}

abbrev pub drop_back : ℕ → List ℕ → List ℕ
drop_back k [] = []
drop_back k (j ∷ xs) = if j == k then xs else j ∷ xs

unfoldable pub pop_resolution : ℕ → Container → Container
pop_resolution k c = record c { stack = erase_key k c.stack; order = drop_back k c.order }

-- Overwrites the value at a key that is there.
abbrev pub update : ℕ → ServiceEntry → Services → Services
update k e [] = []
update k e ((j, d) ∷ m) = if j == k then (j, e) ∷ m else (j, d) ∷ update k e m

abbrev pub Resolved : Type 0
Resolved = Result Instance

abbrev pub failure : ℤ → String → Resolved
failure code message = err (plain_error code message "di::service_container")

-- The scope's map from types to instances, or none for the root container.
abbrev pub Scoped : Type 0
Scoped = Option (List (ℕ × Instance))

abbrev pub lookup : ℕ → List (ℕ × Instance) → Option Instance
lookup type [] = none
lookup type (entry ∷ rest) = if entry.0 == type then some entry.1 else lookup type rest

module _ (type_name_of : ℕ → String) where
  -- `names[0] -> names[1] -> …`, oldest first.
  abbrev join : List ℕ → String
  join [] = ""
  join (k ∷ []) = type_name_of k
  join (k ∷ rest) = concat (join rest) (concat " -> " (type_name_of k))

  unfoldable pub get_resolution_stack_string : Container → String
  get_resolution_stack_string c = join c.order

  -- The outer option is none where the fuel runs out, or where the code would read a registry entry
  -- that is gone.
  abbrev pub Run : Type 0
  Run = Option (Resolved × Container)

  -- A factory at work; `resolve` is the container's method. An exception becomes an error.
  unfoldable pub invoke_factory_safe : (ℕ → Container → Run) → Factory → Container → Run
  invoke_factory_safe resolve (answer instance_) c = some (ok instance_, c)
  invoke_factory_safe resolve (construct next) c =
      invoke_factory_safe resolve (next c.made) (record c { made = c.made + 1 })
  invoke_factory_safe resolve (throws what) c =
      some (failure (neg 53) (concat "Factory threw exception: " what), c)
  invoke_factory_safe resolve (ask k next) c = elim (resolve k c) [
    | some (r, c') ↦ invoke_factory_safe resolve (next r) c'
    | none ↦ none
  ]

  -- A factory of an entry; the lambda of a registered instance returns null.
  unfoldable pub invoke_entry : (ℕ → Container → Run) → Option Factory → Container → Run
  unfolding invoke_factory_safe
  invoke_entry resolve none c = some (ok none, c)
  invoke_entry resolve (some f) c = invoke_factory_safe resolve f c

  -- The last part of the singleton's case: the lock is taken again and the entry read again.
  unfoldable pub store_singleton : ℕ → Resolved → Container → Run
  store_singleton k r c = elim r.value_ [
    | none ↦ some (r, c)
    | some v ↦ elim (find k c.services) [
      | none ↦ none
      | some entry2 ↦
          if entry2.is_instantiated
          then some (ok entry2.singleton_instance, c)
          else some (
            ok v,
            record c {
              services =
                  update k (record entry2 { singleton_instance = v; is_instantiated = true })
                    c.services;
            },
          )
    ]
  ]

  -- The scope's map beside the rest.
  abbrev pub ScopedRun : Type 0
  ScopedRun = Option (Resolved × Container × Scoped)

  abbrev pub with_scope : Scoped → Run → ScopedRun
  with_scope m none = none
  with_scope m (some (r, c)) = some (r, c, m)

  -- `(*scoped_instances)[interface_type] = instance` after the factory.
  abbrev pub store_scoped : ℕ → List (ℕ × Instance) → Run → ScopedRun
  store_scoped k m none = none
  store_scoped k m (some (r, c)) = elim r.value_ [
    | none ↦ some (r, c, some m)
    | some v ↦ some (ok v, c, some ((k, v) ∷ m))
  ]

  abbrev pub then_store : ℕ → Run → Run
  then_store k none = none
  then_store k (some (r, c)) = store_singleton k r c

  -- The switch over the lifetime that was read from the entry.
  unfoldable pub resolve_as :
      (ℕ → Container → Run) → ℕ → Lifetime → ServiceEntry → Scoped → Container → ScopedRun
  resolve_as resolve k singleton entry m c =
      if entry.is_instantiated
      then some (ok entry.singleton_instance, c, m)
      else with_scope m (then_store k (invoke_entry resolve entry.factory c))
  resolve_as resolve k transient entry m c = with_scope m (invoke_entry resolve entry.factory c)
  resolve_as resolve k scoped entry none c = some (
    failure (neg 55) "Cannot resolve scoped service from root container. Use create_scope().",
    c,
    none,
  )
  resolve_as resolve k scoped entry (some instances) c = elim (lookup k instances) [
    | some v ↦ some (ok v, c, some instances)
    | none ↦ store_scoped k instances (invoke_entry resolve entry.factory c)
  ]

  -- ~resolution_guard
  unfoldable pub guarded : ℕ → ScopedRun → ScopedRun
  guarded k none = none
  guarded k (some (r, c, m)) = some (r, pop_resolution k c, m)

  abbrev pub forget_scope : ScopedRun → Run
  forget_scope none = none
  forget_scope (some (r, c, m)) = some (r, c)

  -- The fuel bounds how deep factories resolve within factories.
  unfoldable pub resolve_with_detection : ℕ → ℕ → Scoped → Container → ScopedRun
  unfolding is_resolving
  resolve_with_detection zero k m c = none
  resolve_with_detection (suc fuel) k m c =
      let nested =
        λ (j : ℕ) (c' : Container). forget_scope (resolve_with_detection fuel j none c') in
      if is_resolving k c
      then some (
        failure (neg 51) (concat "Circular dependency detected: " (get_resolution_stack_string c)),
        c,
        m,
      )
      else elim (find k c.services) [
        | none ↦ some (failure (neg 50) (concat "Service not registered: " (type_name_of k)), c, m)
        | some entry ↦ guarded k (resolve_as nested k entry.lifetime entry m (push_resolution k c))
      ]

  -- service_container::resolve_internal, at a given fuel.
  unfoldable pub resolve_internal : ℕ → ℕ → Container → Run
  resolve_internal fuel k c = forget_scope (resolve_with_detection fuel k none c)
