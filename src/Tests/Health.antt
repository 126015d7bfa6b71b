-- ===== src/Tests/Health.antt =====
-- The dependency graph of health checks on concrete runs.
use common_system.Prelude.{
  ℕ, true, false, ◌≡◌, ◌⊎◌, ◌↔◌, refl, subst, some, List, [], ◌∷◌, String, arith,
}
use common_system.Health.Graph.{
  Graph, new_graph, add_node, add_dependency, would_create_cycle, search_from, cycle_error, link,
  has_node, get_dependencies, get_dependents, get_all_nodes, size,
}
use common_system.Health.Graph.Cycles.{Route}
use common_system.Health.Graph.Impact.{get_failure_impact, spread, visit}
use common_system.Health.Graph.Impact.Exact.{DependsOn, get_failure_impact_exact}
use common_system.Health.Graph.Kept.{
  Sound, GraphCall, adds, links, run_graph, graph_call, budget, new_graph-Sound, run_graph-Sound,
  add_dependency_exact,
}
use common_system.Prelude.Maps.{has, has_key, get, put, insert}
use common_system.Result.Core.{ok}

abbrev pub name_text : ℕ → String
name_text n = "node"

-- 1 is the database, 2 the cache, 3 the service that depends on both.
abbrev pub service_graph : Graph
service_graph = record {
  nodes = (1, 10) ∷ (2, 20) ∷ (3, 30) ∷ [];
  dependencies = (1, []) ∷ (2, 1 ∷ []) ∷ (3, 2 ∷ 1 ∷ []) ∷ [];
  dependents = (1, 3 ∷ 2 ∷ []) ∷ (2, 3 ∷ []) ∷ (3, []) ∷ [];
}

abbrev pub setup_calls : List GraphCall
setup_calls =
    adds 1 (some 10)
    ∷ adds 2 (some 20)
    ∷ adds 3 (some 30)
    ∷ adds 3 (some 31)
    ∷ links 2 1
    ∷ links 3 1
    ∷ links 3 2
    ∷ links 1 3
    ∷ []

setup_runs : run_graph name_text setup_calls new_graph ≡ some service_graph
unfolding run_graph new_graph graph_call add_dependency has_key add_node put would_create_cycle
    search_from budget has get insert
setup_runs = refl

run_graph-Sound_example :
    (g' : Graph) × (run_graph name_text setup_calls new_graph ≡ some g') × Sound g'
run_graph-Sound_example = run_graph-Sound name_text setup_calls new_graph new_graph-Sound

pub service_graph-Sound : Sound service_graph
service_graph-Sound =
    let (g', runs, sound) = run_graph-Sound name_text setup_calls new_graph new_graph-Sound in
    let same : g' ≡ service_graph = cc (runs, setup_runs) in subst Sound same sound

add_dependency_exact_example :
    ((add_dependency name_text 9 1 3 service_graph ≡ some (ok true, link 1 3 service_graph))
      × (¬ Route service_graph.dependencies 3 1))
    ⊎ ((add_dependency name_text 9 1 3 service_graph
          ≡ some (cycle_error name_text 1 3 service_graph))
        × Route service_graph.dependencies 3 1)
unfolding has_key has
add_dependency_exact_example =
    add_dependency_exact name_text 9 1 3 service_graph refl refl (omega arith)

service_queries :
    ((has_node 2 service_graph ≡ true) × (has_node 4 service_graph ≡ false))
    × ((get_dependencies 3 service_graph ≡ 2 ∷ 1 ∷ []) × (get_dependents 2 service_graph ≡ 3 ∷ []))
    × ((get_all_nodes service_graph ≡ 1 ∷ 2 ∷ 3 ∷ []) × (size service_graph ≡ 3))
unfolding has_node has_key get_dependencies get_dependents get get_all_nodes size
service_queries = ((refl, refl), (refl, refl), (refl, refl))

impact_runs : get_failure_impact 9 1 service_graph ≡ some (2 ∷ 3 ∷ [])
unfolding get_failure_impact spread visit has get
impact_runs = refl

get_failure_impact_exact_example :
    (out : List ℕ) × (get_failure_impact 9 1 service_graph ≡ some out)
    × ((k : ℕ) → (has k out ≡ true) ↔ DependsOn service_graph k 1)
unfolding has
get_failure_impact_exact_example =
    get_failure_impact_exact service_graph service_graph-Sound.valid 1 9 (omega arith)
