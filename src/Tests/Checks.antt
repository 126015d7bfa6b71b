-- ===== src/Tests/Checks.antt =====
-- Health checks, their order and the texts of enumerations on concrete runs.
use common_system.Prelude.{
  ℕ, true, false, ◌≡◌, refl, some, List, [], ◌∷◌, String, ◌==◌, if◌then◌else◌, length, arith,
}
use common_system.Health.Composite.{
  Checks, remove_check, get_check_names, check as composite_check, tally, tally_all, summary_text,
  append_messages,
}
use common_system.Health.Composite.Worst.{severity, worst, count_status, composite_worst}
use common_system.Health.Graph.Check.{
  check_with_dependencies, check_internal, check_dependencies, dependency_failure,
}
use common_system.Health.Graph.Check.Propagates.{Right, check_with_dependencies_answers}
use common_system.Prelude.Maps.{has, has_key, get, put, at}
use common_system.Prelude.Sets.{Once}
use common_system.Health.Graph.Sort.{
  topological_sort, sort_loop, relax, degree, zero_degrees, count_degrees, zero_in_degree,
}
use common_system.Health.Graph.Sort.Complete.{topological_sort_orders}
use common_system.Health.Graph.Sort.Order.{InOrder}
use common_system.Health.Status.{
  HealthStatus, healthy, degraded, unhealthy, unknown, HealthCheckResult, is_healthy,
  is_operational, new_result,
}
use common_system.Result.Core.{ok, err}
use common_system.Tests.Health.{name_text, service_graph, service_graph-Sound}
use common_system.Utils.Enums.{enum_from_string, find_value}
use common_system.Utils.Enums.Tables.{warning, log_level_traits}

abbrev result_of : HealthStatus → String → HealthCheckResult
result_of s m = record { status = s; message = m; metadata = [] }

-- The cache is down.
abbrev answers : ℕ → HealthCheckResult
answers k = if k == 2 then result_of unhealthy "no memory" else result_of healthy "fine"

sort_runs : topological_sort 4 service_graph ≡ some (ok (1 ∷ 2 ∷ 3 ∷ []))
unfolding topological_sort sort_loop relax degree at zero_degrees count_degrees zero_in_degree put
sort_runs = refl

topological_sort_orders_example :
    (out : List ℕ) × (topological_sort 4 service_graph ≡ some (ok out))
    × InOrder service_graph.dependencies [] out
    × Once out
    × ((k : ℕ) → has k out ≡ has_key k service_graph.nodes)
topological_sort_orders_example =
    topological_sort_orders service_graph service_graph-Sound 4 (omega arith) (omega arith)

check_runs :
    check_with_dependencies name_text answers 4 3 service_graph
    ≡ some (
        ok (record {
          status = unhealthy;
          message = "Dependency unhealthy: node";
          metadata = ("skipped", "true") ∷ ("reason", "dependency_failure") ∷ [];
        }))
unfolding check_with_dependencies check_internal check_dependencies dependency_failure at has_key
    get put ok err
check_runs = refl

check_with_dependencies_answers_example :
    (r : HealthCheckResult) × (check_with_dependencies name_text answers 4 3 service_graph
      ≡ some (ok r))
    × Right name_text answers service_graph 3 r
unfolding has_key
check_with_dependencies_answers_example =
    check_with_dependencies_answers name_text answers service_graph service_graph-Sound 4 3 refl
      (omega arith)

abbrev children : Checks
children =
    record { name = "disk"; answer = result_of unknown "?" }
    ∷ record { name = "cache"; answer = result_of degraded "slow" }
    ∷ record { name = "database"; answer = result_of healthy "fine" }
    ∷ []

abbrev digit : ℕ → String
digit n = if n == 0 then "0" else if n == 1 then "1" else "many"

composite_runs :
    (composite_check digit children).message ≡ "0 unhealthy, 1 degraded; disk: ?; cache: slow"
unfolding composite_check tally_all tally summary_text append_messages
composite_runs = refl

remove_runs : get_check_names (remove_check "cache" children).1 ≡ "disk" ∷ "database" ∷ []
unfolding get_check_names remove_check
remove_runs = refl

composite_worst_example :
    (severity (composite_check digit children).status ≡ worst children)
    × ((composite_check digit children).metadata
        ≡ ("total_checks", digit (length children))
          ∷ ("healthy_count", digit (count_status healthy children))
          ∷ ("degraded_count", digit (count_status degraded children))
          ∷ ("unhealthy_count", digit (count_status unhealthy children))
          ∷ [])
composite_worst_example = composite_worst digit children (omega arith)

level_runs : enum_from_string ⦃e = log_level_traits⦄ "Warning" ≡ ok warning
unfolding enum_from_string find_value
level_runs = refl

status_runs : (is_operational new_result ≡ false) × (is_healthy (result_of healthy "") ≡ true)
unfolding is_operational is_healthy new_result
status_runs = (refl, refl)
