-- ===== src/Health/Graph/Tidy.antt =====
-- The maps of the graph name the same nodes, and no map or set holds a name twice.
pub mod Preserved
use common_system.Prelude.{ℕ, ◌≡◌}
use common_system.Health.Graph.{Graph}
use common_system.Prelude.Maps.{has_key, get}
use common_system.Prelude.Sets.{Once, keys}

pub record Tidy (g : Graph) : Type 0 where
  pub listed_dependencies : (k : ℕ) → has_key k g.dependencies ≡ has_key k g.nodes
  pub listed_dependents : (k : ℕ) → has_key k g.dependents ≡ has_key k g.nodes
  pub once_nodes : Once (keys g.nodes)
  pub once_links : Once (keys g.dependencies)
  pub once_dependencies : (k : ℕ) → Once (get k g.dependencies)
  pub once_dependents : (k : ℕ) → Once (get k g.dependents)
