-- ===== src/Di/Container/Registry.antt =====
-- The state of a container, and registration. A `std::type_index` is a number.
use Prim.Native.String.{◌++◌ as concat}
use common_system.Prelude.{
  ℕ, Bool, true, false, Option, none, some, List, [], ◌∷◌, String, ℤ, neg, ◌==◌, if◌then◌else◌,
}
use common_system.Logging.Audit.{
  Action, Event, register_service, unregister_service, clear_services, freeze_service_container,
}
use common_system.Result.Core.{Result, ok, err, plain_error}

-- A `shared_ptr<void>`: null, or an object, named by the order of construction.
abbrev pub Instance : Type 0
Instance = Option ℕ

-- What a factory does with the container that it is given: it returns a pointer, which is null or
-- goes to any object, throws a `std::exception`, or it constructs an object or resolves a service and
-- goes on with that. One that throws anything else, which leaves the resolution too, is not modelled.
pub data Factory : Type 0 where
  answer : Instance → Factory
  construct : (ℕ → Factory) → Factory
  throws : String → Factory
  ask : ℕ → (Result Instance → Factory) → Factory

-- The factory that returns a new object.
abbrev pub give : Factory
give = construct (λ n. answer (some n))

pub data Lifetime : Type 0 where
  singleton transient scoped : Lifetime

-- `no_factory` is the null-returning lambda of `register_instance_internal`.
pub record ServiceEntry : Type 0 where
  pub interface_type : ℕ
  pub type_name : String
  pub factory : Option Factory
  pub lifetime : Lifetime
  pub singleton_instance : Instance
  pub is_instantiated : Bool

abbrev pub Services : Type 0
Services = List (ℕ × ServiceEntry)

-- `stack` is the set and `order` the vector of the resolution stack, newest first. `made` counts
-- the objects that factories have constructed, and `log` is the audit log, newest first.
pub record Container : Type 0 where
  pub services : Services
  pub frozen : Bool
  pub stack : List ℕ
  pub order : List ℕ
  pub made : ℕ
  pub log : List Event

unfoldable pub find : ℕ → Services → Option ServiceEntry
find k [] = none
find k ((j, e) ∷ m) = if j == k then some e else find k m

unfoldable pub erase : ℕ → Services → Services
erase k [] = []
erase k ((j, e) ∷ m) = let rest = erase k m in if j == k then rest else (j, e) ∷ rest

unfoldable pub new_container : Container
new_container = record { services = []; frozen = false; stack = []; order = []; made = 0; log = [] }

-- RegistryAuditLog::log_event
abbrev pub audit : Action → String → Bool → String → Container → Container
audit action target_name success error_message c = record c {
  log =
      record {
        action = action;
        target_name = target_name;
        success = success;
        error_message = error_message;
      }
      ∷ c.log;
}

-- A VoidResult beside the container that the method leaves.
abbrev pub Done : Type 0
Done = Result (Unit {0}) × Container

abbrev pub fails : ℤ → String → Container → Done
fails code message c = (err (plain_error code message "di::service_container"), c)

-- `none` lets the caller go on.
unfoldable pub check_frozen_for_registration : String → Action → String → Container → Option Done
check_frozen_for_registration type_name action message c =
    if c.frozen
    then some (fails (neg 11) message (audit action type_name false "Container is frozen" c))
    else none

unfoldable pub check_already_registered : ℕ → String → Container → Option Done
check_already_registered k type_name c = elim (find k c.services) [
  | some _ ↦ some (
      fails (neg 52) (concat "Service already registered: " type_name)
        (audit register_service type_name false "Service already registered" c))
  | none ↦ none
]

-- services_.emplace of a key that is not there.
abbrev add_entry : ServiceEntry → Container → Done
add_entry e c = (
  ok tt,
  audit register_service e.type_name true ""
      (record c { services = (e.interface_type, e) ∷ c.services }),
)

unfoldable pub register_factory_internal : ℕ → String → Factory → Lifetime → Container → Done
unfolding check_frozen_for_registration check_already_registered
register_factory_internal k type_name factory lifetime c =
    elim (check_frozen_for_registration type_name register_service
      "Cannot register service: container is frozen" c) [
        | some refusal ↦ refusal
        | none ↦ elim (check_already_registered k type_name c) [
          | some refusal ↦ refusal
          | none ↦
              add_entry
                (record {
                  interface_type = k;
                  type_name = type_name;
                  factory = some factory;
                  lifetime = lifetime;
                  singleton_instance = none;
                  is_instantiated = false;
                })
                c
        ]
      ]

unfoldable pub register_instance_internal : ℕ → String → Instance → Container → Done
unfolding check_frozen_for_registration check_already_registered
register_instance_internal k type_name instance_ c =
    elim (check_frozen_for_registration type_name register_service
      "Cannot register instance: container is frozen" c) [
        | some refusal ↦ refusal
        | none ↦ elim (check_already_registered k type_name c) [
          | some refusal ↦ refusal
          | none ↦
              add_entry
                (record {
                  interface_type = k;
                  type_name = type_name;
                  factory = none;
                  lifetime = singleton;
                  singleton_instance = instance_;
                  is_instantiated = true;
                })
                c
        ]
      ]

-- `name` is `interface_type.name()`.
unfoldable pub unregister_internal : ℕ → String → Container → Done
unregister_internal k name c =
    if c.frozen
    then fails (neg 11) "Cannot unregister service: container is frozen"
        (audit unregister_service name false "Container is frozen" c)
    else elim (find k c.services) [
      | none ↦
          fails (neg 50) "Service not registered"
            (audit unregister_service name false "Service not registered" c)
      | some _ ↦ (
        ok tt,
        audit unregister_service name true "" (record c { services = erase k c.services }),
      )
    ]

unfoldable pub clear : Container → Done
clear c =
    if c.frozen
    then fails (neg 11) "Cannot clear services: container is frozen"
        (audit clear_services "" false "Container is frozen" c)
    else (ok tt, audit clear_services "" true "" (record c { services = [] }))

unfoldable pub freeze : Container → Container
freeze c = audit freeze_service_container "" true "" (record c { frozen = true })

unfoldable pub is_registered_internal : ℕ → Container → Bool
is_registered_internal k c = elim (find k c.services) [ some _ ↦ true | none ↦ false ]
