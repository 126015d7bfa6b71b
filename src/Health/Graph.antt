-- ===== src/Health/Graph.antt =====
-- health_dependency_graph.h: nodes, their dependencies and their dependents. A name is a number, 0
-- the empty one, and `text` its characters; a check is a pointer, none where it is null. A map and a
-- set are lists, whose order the code does not look at, and a missing set is an empty one, which is
-- what `operator[]` creates. The mutex makes every method one step.
pub mod Edges
pub mod Search
pub mod Cycles
pub mod Kept
pub mod Impact
pub mod Sort
pub mod Check
pub mod Tidy
use Prim.Native.String.{◌++◌ as concat}
use common_system.Prelude.{
  ℕ, zero, suc, Bool, true, false, Option, none, some, List, [], ◌∷◌, ◌++◌, String, pos, ◌==◌,
  if◌then◌else◌, length, map,
}
use common_system.Result.Core.{Result, ok, err, plain_error}
use common_system.Prelude.Maps.{Map, Links, has, insert, remove, has_key, get, put, drop}

pub record Graph : Type 0 where
  pub nodes : Map ℕ
  pub dependencies : Links
  pub dependents : Links

unfoldable pub new_graph : Graph
new_graph = record { nodes = []; dependencies = []; dependents = [] }

-- `for (dep : deps) links[dep].erase(name)`
unfoldable pub unlink : ℕ → List ℕ → Links → Links
unlink name [] m = m
unlink name (dep ∷ deps) m = unlink name deps (put dep (remove name (get dep m)) m)

-- The search of would_create_cycle_internal: true where `from` is met. Fuel bounds the iterations.
unfoldable pub search_from : ℕ → Links → ℕ → List ℕ → List ℕ → Option Bool
search_from zero m from visited queue = none
search_from (suc fuel) m from visited [] = some false
search_from (suc fuel) m from visited (current ∷ queue) =
    let skipped = search_from fuel m from visited queue in
    let followed = search_from fuel m from (current ∷ visited) (queue ++ get current m) in
    if current == from then some true else if has current visited then skipped else followed

unfoldable pub would_create_cycle : ℕ → ℕ → ℕ → Graph → Option Bool
would_create_cycle fuel from to g = search_from fuel g.dependencies from [] (to ∷ [])

unfoldable pub get_dependencies : ℕ → Graph → List ℕ
get_dependencies name g = get name g.dependencies

unfoldable pub get_dependents : ℕ → Graph → List ℕ
get_dependents name g = get name g.dependents

unfoldable pub has_node : ℕ → Graph → Bool
has_node name g = has_key name g.nodes

unfoldable pub size : Graph → ℕ
size g = length g.nodes

unfoldable pub get_all_nodes : Graph → List ℕ
get_all_nodes g = map (λ entry. entry.0) g.nodes

unfoldable pub clear : Graph → Graph
clear g = new_graph

-- The two loops, before the entries go.
abbrev pub detach : ℕ → Graph → Graph
detach name g =
    let dependents = unlink name (get name g.dependencies) g.dependents in
    record g {
      dependencies = unlink name (get name dependents) g.dependencies;
      dependents = dependents;
    }

abbrev pub link : ℕ → ℕ → Graph → Graph
link dependent dependency g = record g {
  dependencies = put dependent (insert dependency (get dependent g.dependencies)) g.dependencies;
  dependents = put dependency (insert dependent (get dependency g.dependents)) g.dependents;
}

module _ (text : ℕ → String) where
  abbrev fails : ℕ → String → Graph → Result Bool × Graph
  fails code message g = (err (plain_error (pos code) message "health_dependency_graph"), g)

  unfoldable pub add_node : ℕ → Option ℕ → Graph → Result Bool × Graph
  add_node name none g =
      if name == 0
      then fails 1 "Node name cannot be empty" g
      else fails 2 "Health check cannot be null" g
  add_node name (some check) g =
      if name == 0
      then fails 1 "Node name cannot be empty" g
      else if has_key name g.nodes
      then fails 3 (concat "Node already exists: " (text name)) g
      else (
        ok true,
        record g {
          nodes = put name check g.nodes;
          dependencies = put name [] g.dependencies;
          dependents = put name [] g.dependents;
        },
      )

  unfoldable pub remove_node : ℕ → Graph → Result Bool × Graph
  remove_node name g =
      if has_key name g.nodes
      then (
        ok true,
        record {
          nodes = drop name g.nodes;
          dependencies = drop name (detach name g).dependencies;
          dependents = drop name (detach name g).dependents;
        },
      )
      else fails 1 (concat "Node not found: " (text name)) g

  abbrev pub cycle_error : ℕ → ℕ → Graph → Result Bool × Graph
  cycle_error dependent dependency g =
      fails 3
        (concat "Adding dependency would create a cycle: "
          (concat (text dependent) (concat " -> " (text dependency))))
        g

  -- None where the search runs out of fuel.
  unfoldable pub add_dependency : ℕ → ℕ → ℕ → Graph → Option (Result Bool × Graph)
  add_dependency fuel dependent dependency g =
      if has_key dependent g.nodes
      then (if has_key dependency g.nodes
          then elim (would_create_cycle fuel dependent dependency g) [
            | none ↦ none
            | some true ↦ some (cycle_error dependent dependency g)
            | some false ↦ some (ok true, link dependent dependency g)
          ]
          else some (fails 2 (concat "Dependency node not found: " (text dependency)) g))
      else some (fails 1 (concat "Dependent node not found: " (text dependent)) g)

  unfoldable pub remove_dependency : ℕ → ℕ → Graph → Result Bool × Graph
  remove_dependency dependent dependency g =
      if has_key dependent g.nodes
      then (
        ok true,
        record g {
          dependencies =
              put dependent (remove dependency (get dependent g.dependencies)) g.dependencies;
          dependents =
              if has_key dependency g.nodes
              then put dependency (remove dependent (get dependency g.dependents)) g.dependents
              else g.dependents;
        },
      )
      else fails 1 (concat "Dependent node not found: " (text dependent)) g
