-- ===== src/Di/Container.antt =====
-- service_container.h: the registry and the operations that change it. One thread is modelled: the
-- mutex makes each registration one step, and the resolution stack is thread local.
mod Registry
pub mod Resolve
pub mod Frozen
pub use Registry.{
  Instance, Factory, answer, construct, give, throws, ask, Lifetime, singleton, transient, scoped,
  ServiceEntry, Services, Container,
}
unfoldable pub use Registry.{
  find, erase, new_container, check_frozen_for_registration, check_already_registered,
  register_factory_internal, register_instance_internal, unregister_internal, clear, freeze,
  is_registered_internal,
}
