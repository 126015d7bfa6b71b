-- ===== src/Health/Graph/Kept.antt =====
-- Every method leaves a graph whose maps agree and that has no cycle.
use common_system.Prelude.{
  ℕ, ◌+◌, ◌<◌, Bool, true, false, not, ◌&&◌, ◌≡◌, refl, subst, Option, none, some, ◌⊎◌, inl, inr,
  List, [], ◌∷◌, ◌==◌, arith, Bool-cases, String,
}
use common_system.Health.Graph.{
  Graph, new_graph, would_create_cycle, link, add_node, remove_node, add_dependency,
  remove_dependency, search_from, clear, cycle_error,
}
use common_system.Health.Graph.Cycles.{
  Route, stay, Acyclic, Acyclic-fewer, Acyclic-link, search_false, search_true,
}
use common_system.Health.Graph.Edges.{
  edge, IsValid, new_graph-IsValid, edge-detach, edge-link, link-IsValid, remove_node-IsValid,
  add_node-IsValid, remove_dependency-IsValid,
}
use common_system.Prelude.Maps.{has, has_key, get, remove, has-remove, get-put}
use common_system.Health.Graph.Search.{pending, search_ends}
use common_system.Health.Graph.Tidy.{Tidy}
use common_system.Health.Graph.Tidy.Preserved.{
  new_graph-Tidy, add_node-Tidy, remove_node-Tidy, link-Tidy, remove_dependency-Tidy,
}
use common_system.Result.Core.{Result, ok, err}

pub record Sound (g : Graph) : Type 0 where
  pub valid : IsValid g
  pub acyclic : Acyclic g.dependencies
  pub tidy : Tidy g

pub new_graph-Sound : Sound new_graph
unfolding new_graph has get
new_graph-Sound = record {
  valid = new_graph-IsValid;
  acyclic = λ a b h r. absurd (cc h);
  tidy = new_graph-Tidy;
}

module _ (text : ℕ → String) (g : Graph) (s : Sound g) where
  -- A new node brings no edge.
  add_node-fewer :
      (name : ℕ) (check : Option ℕ) (a b : ℕ)
      → edge a b (add_node text name check g).1 ≡ true
      → edge a b g ≡ true
  unfolding add_node has
  add_node-fewer name none a b h = ground (arith, h)
  add_node-fewer name (some check) a b h = ground (arith, h, get-put name a [] g.dependencies)

  pub add_node-Sound : (name : ℕ) (check : Option ℕ) → Sound (add_node text name check g).1
  add_node-Sound name check = record {
    valid = add_node-IsValid g s.valid text name check;
    acyclic = Acyclic-fewer (add_node-fewer name check) s.acyclic;
    tidy = add_node-Tidy text g s.valid s.tidy name check;
  }

  -- remove_node, on a node of a sound graph, removes the edges that touch that node and no other.
  remove_node_edges :
      (name a b : ℕ)
      → has_key name g.nodes ≡ true
      → edge a b (remove_node text name g).1 ≡ (not (name == a) && not (name == b) && edge a b g)
  unfolding remove_node
  remove_node_edges name a b h = rw h (edge-detach g s.valid name a b)

  pub remove_node-Sound : (name : ℕ) → Sound (remove_node text name g).1
  unfolding remove_node
  remove_node-Sound name = record {
    valid = remove_node-IsValid g s.valid text name;
    tidy = remove_node-Tidy text g s.valid s.tidy name;
    acyclic = elim (Bool-cases (has_key name g.nodes)) [
      | inl h ↦
          rw h
            (Acyclic-fewer (λ a b e. ground (arith, e, edge-detach g s.valid name a b)) s.acyclic)
      | inr h ↦ rw h s.acyclic
    ];
  }

  pub remove_dependency-Sound : (d e : ℕ) → Sound (remove_dependency text d e g).1
  unfolding remove_dependency
  remove_dependency-Sound d e = record {
    valid = remove_dependency-IsValid g s.valid text d e;
    tidy = remove_dependency-Tidy text g s.valid s.tidy d e;
    acyclic = elim (Bool-cases (has_key d g.nodes)) [
      | inl h ↦ rw h (
          Acyclic-fewer
            (λ a b i. ground (
              arith,
              i,
              get-put d a (remove e (get d g.dependencies)) g.dependencies,
              has-remove e b (get d g.dependencies),
            ))
            s.acyclic)
      | inr h ↦ rw h s.acyclic
    ];
  }

  pub link-Sound :
      (d e : ℕ)
      → has_key d g.nodes ≡ true
      → has_key e g.nodes ≡ true
      → ¬ Route g.dependencies e d
      → Sound (link d e g)
  link-Sound d e hd he apart = record {
    valid = link-IsValid g s.valid d e hd he;
    tidy = link-Tidy text g s.valid s.tidy d e hd he;
    acyclic = Acyclic-link d e (edge-link g s.valid d e) s.acyclic apart;
  }

-- On two nodes, with fuel for every dependency that is stored, add_dependency adds the edge where
-- the dependent cannot be reached from the dependency along dependencies, and returns error 3 and
-- leaves the graph as it was where it can be reached.
pub add_dependency_exact :
    (text : ℕ → String) (fuel d e : ℕ) (g : Graph)
    → has_key d g.nodes ≡ true
    → has_key e g.nodes ≡ true
    → 1 + pending [] g.dependencies < fuel
    → ((add_dependency text fuel d e g ≡ some (ok true, link d e g)) × (¬ Route g.dependencies e d))
      ⊎ ((add_dependency text fuel d e g ≡ some (cycle_error text d e g))
          × Route g.dependencies e d)
unfolding add_dependency would_create_cycle has err
add_dependency_exact text fuel d e g hd he enough =
    let (answer, ends) = search_ends fuel g.dependencies d [] (e ∷ []) enough in
    elim (Bool-cases answer) [
      | inl yes_ ↦
          let found : search_from fuel g.dependencies d [] (e ∷ []) ≡ some true = cc (ends, yes_) in
          inr
            (rw (hd, he, found) refl, search_true fuel g.dependencies d e [] (e ∷ []) reached found)
      | inr no_ ↦
          let found : search_from fuel g.dependencies d [] (e ∷ []) ≡ some false = cc (ends, no_) in
          inl (rw (hd, he, found) refl, search_false fuel g.dependencies d e found)
    ]
  where
    reached : (k : ℕ) → has k (e ∷ []) ≡ true → Route g.dependencies e k
    reached k h = subst (λ x. Route g.dependencies e x) (ground (arith, h)) (stay e)

-- A method that changes the graph.
pub data GraphCall : Type 0 where
  adds : ℕ → Option ℕ → GraphCall
  removes : ℕ → GraphCall
  links : ℕ → ℕ → GraphCall
  unlinks : ℕ → ℕ → GraphCall
  clears : GraphCall

-- The fuel that the search needs.
unfoldable pub budget : Graph → ℕ
budget g = 2 + pending [] g.dependencies

unfoldable pub graph_call : (ℕ → String) → GraphCall → Graph → Option (Result Bool × Graph)
graph_call text (adds name check) g = some (add_node text name check g)
graph_call text (removes name) g = some (remove_node text name g)
graph_call text (links d e) g = add_dependency text (budget g) d e g
graph_call text (unlinks d e) g = some (remove_dependency text d e g)
graph_call text clears g = some (ok true, clear g)

abbrev and_run : (Graph → Option Graph) → Option (Result Bool × Graph) → Option Graph
and_run k none = none
and_run k (some (r, g)) = k g

unfoldable pub run_graph : (ℕ → String) → List GraphCall → Graph → Option Graph
run_graph text [] g = some g
run_graph text (c ∷ calls) g = and_run (run_graph text calls) (graph_call text c g)

add_dependency-Sound :
    (text : ℕ → String) (fuel d e : ℕ) (g : Graph)
    → Sound g
    → 1 + pending [] g.dependencies < fuel
    → (out : Result Bool × Graph) × (add_dependency text fuel d e g ≡ some out) × Sound out.1
unfolding add_dependency
add_dependency-Sound text fuel d e g s enough = elim (Bool-cases (has_key d g.nodes)) [
  | inr hd ↦ rw hd (_, refl, s)
  | inl hd ↦ elim (Bool-cases (has_key e g.nodes)) [
    | inr he ↦ rw (hd, he) (_, refl, s)
    | inl he ↦ elim (add_dependency_exact text fuel d e g hd he enough) [
      | inl (added, apart) ↦ ((ok true, link d e g), added, link-Sound text g s d e hd he apart)
      | inr (refused, route) ↦ (cycle_error text d e g, refused, s)
    ]
  ]
]

graph_call-Sound :
    (text : ℕ → String) (c : GraphCall) (g : Graph)
    → Sound g
    → (out : Result Bool × Graph) × (graph_call text c g ≡ some out) × Sound out.1
unfolding graph_call budget clear
graph_call-Sound text (adds name check) g s = (_, refl, add_node-Sound text g s name check)
graph_call-Sound text (removes name) g s = (_, refl, remove_node-Sound text g s name)
graph_call-Sound text (links d e) g s = add_dependency-Sound text _ d e g s (omega arith)
graph_call-Sound text (unlinks d e) g s = (_, refl, remove_dependency-Sound text g s d e)
graph_call-Sound text clears g s = (_, refl, new_graph-Sound)

-- Any sequence of calls of add_node, remove_node, add_dependency, remove_dependency and clear on a
-- sound graph ends, where each search has fuel for every dependency that is stored, and leaves a
-- sound graph: an edge is in the map of dependencies exactly where it is in the map of dependents,
-- both its ends are nodes, no node depends on itself through any route, the three maps name the same
-- nodes, and none of them or of their sets holds a name twice.
pub run_graph-Sound :
    (text : ℕ → String) (calls : List GraphCall) (g : Graph)
    → Sound g
    → (g' : Graph) × (run_graph text calls g ≡ some g') × Sound g'
unfolding run_graph
run_graph-Sound text [] g s = (g, refl, s)
run_graph-Sound text (c ∷ calls) g s =
    let (out, called, s') = graph_call-Sound text c g s in
    rw called (run_graph-Sound text calls out.1 s')
