-- ===== src/Lib.antt =====
-- Verification of common_system, the header library of shared C++ infrastructure: results and
-- error codes, a circuit breaker, bounded buffers, an object pool, a graph of health checks, a
-- registry of loggers, a dependency injection container, bootstrappers, an event bus and settings.
-- Paths are from the repository's root, below include/kcenon/common/.
--
-- Parts and files:
--   resilience/: Resilience/State (circuit_state.h, circuit_breaker_config.h), Resilience/Window
--   (class failure_window) and Resilience/Breaker (class circuit_breaker). The breaker holds a
--   window and asks it for the count when a closed circuit fails. The classes lock a mutex for the
--   whole of each method, so a list of calls is any interleaving of threads. Clock readings are
--   arguments, in ticks; a duration in milliseconds is multiplied by the ticks of a millisecond.
--   The counters wrap at 2 ^ 64 as std::size_t does, and so do the indices of the buffers.
--   utils/circular_buffer.h: Utils/CircularBuffer (class CircularBuffer, locked) and Utils/Spsc
--   (class SPSCCircularBuffer, lock free). In the second each atomic access is one step of the
--   relation Spsc.Step, and the two threads' steps interleave freely; memory is sequentially
--   consistent there, which is stronger than the acquire and release of the source. Utils/Ring has
--   the index arithmetic that both share.
--   utils/object_pool.h: Utils/ObjectPool and Utils/ObjectPool/Owners. An address is a number, and
--   operator new is a parameter that gives an address which is not allocated.
--   error/error_codes.h: Error/Codes (the namespaces of codes as tables), Error/Messages
--   (get_error_message, get_category_name) and Error/Ranges.
--   patterns/result/: Result/Core (error_info and Result<T>, two optionals as in the source),
--   Result/Catch (make_error, exception_mapper, try_catch) and Result/Laws. An exception is given by
--   the handlers' classes that it belongs to; the hierarchy of the standard library is a hypothesis.
--   di/service_container.h: Di/Container/Registry (registration, freezing and the audit events that
--   they log) and Di/Container/Resolve (resolve_with_detection, its resolution stack, the factories
--   and the map of a scope). The container returns results of Result/Core with codes of
--   Error/Codes. A factory is a tree of what it does: answer an object that exists (or null),
--   construct one, throw a std::exception, or resolve a service and go on with the result.
--   interfaces/monitoring/health_dependency_graph.h: Health/Graph. Names are numbers with a text;
--   Health/Graph/Edges compares the two maps, Health/Graph/Search is about the search for a cycle,
--   Health/Graph/Cycles about routes, Health/Graph/Kept about sequences of calls, and
--   Health/Graph/Impact has get_failure_impact, Health/Graph/Sort topological_sort, and
--   Health/Graph/Check check_with_dependencies; Health/Graph/Tidy is about names held once.
--   interfaces/monitoring_interface.h, interfaces/monitoring/composite_health_check.h: Health/Status
--   and Health/Composite. What a check answers is a parameter.
--   utils/enum_serialization.h: Utils/Enums, an interface of tables as an instance; the tables of
--   health_status, metric_type, health_check_type and log_level are in Utils/Enums/Tables.
--   interfaces/registry_audit_log.h, interfaces/global_logger_registry.h: Logging/Audit and
--   Logging/Registry (Lookup has what reads and creates, Frozen what a frozen registry keeps).
--   The container's events are of the same type.
--   bootstrap/system_bootstrapper.h: Bootstrap/System, over the logger registry and the container;
--   Loggers is about the registration of loggers, Callbacks about callbacks that return or throw,
--   and Steps about initialize and shutdown.
--   di/unified_bootstrapper.h: Di/Bootstrapper, over the container; Di/Bootstrapper/Hooks is about
--   its shutdown and Di/Bootstrapper/Valid about sequences of calls.
--   patterns/event_bus.h: Patterns/EventBus; Delivery is about publish, Valid about the table.
--   config/cli_config_parser.h: Config/CliParser (parse); Config/CliParser/Print about reading back;
--   Config/Overrides has apply_override, over the settings of config/unified_config.h in
--   Config/UnifiedConfig; Config/Validation has validate of config/config_loader.h;
--   Config/Double has the values of a double, NaN and the infinities too, as far as it compares them.
--   Prelude/Maps and Prelude/Sets have the association lists and lists of names that these share.
--
-- Fuel: resolve_with_detection recurs through the factories, so it takes fuel for how deep they
-- nest. One more than the number of registered types that are not being resolved is enough, since
-- each level puts one more registered type on the resolution stack. The search for a cycle takes
-- fuel for its iterations: two more than the number of stored dependencies is enough, since an
-- iteration takes a node off the queue and the dependencies of a node are queued once. For
-- get_failure_impact it is the same with the dependents; topological_sort and
-- check_with_dependencies take one more than the number of nodes, since no node is placed twice
-- and no path of dependencies holds a node twice.
--
-- Not modelled: the C++ memory model, the names of types (a parameter), text beside error messages
-- (source locations, JSON), factories that register or remove services or throw what is not a
-- std::exception, registration functions of the unified bootstrapper that throw, and threads that
-- register, freeze or resolve at the same time. Nor are the monitor of health checks, the reading
-- and watching of configuration files and the typed error categories; the interfaces, adapters,
-- concepts and feature flags hold no logic of their own.
mod Prelude
pub mod Error
pub mod Health
pub mod Logging
pub mod Bootstrap
pub mod Result
pub mod Di
pub mod Resilience
pub mod Utils
pub mod Patterns
pub mod Config
mod Tests
