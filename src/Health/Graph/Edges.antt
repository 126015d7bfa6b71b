-- ===== src/Health/Graph/Edges.antt =====
-- The two maps of the graph hold the same edges, between nodes that exist.
use common_system.Prelude.{
  ℕ, Bool, true, not, ◌&&◌, ◌||◌, ◌≡◌, refl, Option, none, some, List, [], ◌∷◌, ◌==◌, arith, String,
  Bool-cases, inl, inr,
}
use common_system.Health.Graph.{
  Graph, new_graph, unlink, detach, link, add_node, remove_node, remove_dependency,
}
use common_system.Prelude.Maps.{
  Links, has, insert, remove, has_key, get, put, drop, has-insert, has-remove, get-put, get-drop,
  has_key-put, has_key-drop,
}

-- An edge in the map of dependencies.
abbrev pub edge : ℕ → ℕ → Graph → Bool
edge a b g = has b (get a g.dependencies)

-- The same edge in the map of dependents.
abbrev pub back_edge : ℕ → ℕ → Graph → Bool
back_edge a b g = has a (get b g.dependents)

pub record IsValid (g : Graph) : Type 0 where
  pub mirror : (a b : ℕ) → edge a b g ≡ back_edge a b g
  pub known :
      (a b : ℕ) → edge a b g ≡ true → (has_key a g.nodes ≡ true) × (has_key b g.nodes ≡ true)

pub new_graph-IsValid : IsValid new_graph
unfolding new_graph get has
new_graph-IsValid = record { mirror = λ a b. refl; known = λ a b h. absurd (cc h) }

pub has-unlink :
    (name : ℕ) (deps : List ℕ) (m : Links) (j k : ℕ)
    → has j (get k (unlink name deps m)) ≡ (has j (get k m) && not ((name == j) && has k deps))
unfolding unlink has
has-unlink name [] m j k = ground arith
has-unlink name (dep ∷ deps) m j k = ground (
  arith,
  has-unlink name deps (put dep (remove name (get dep m)) m) j k,
  get-put dep k (remove name (get dep m)) m,
  has-remove name j (get dep m),
)

module _ (g : Graph) (v : IsValid g) where
  pub edge-detach :
      (name a b : ℕ)
      → has b (get a (drop name (detach name g).dependencies))
        ≡ (not (name == a) && not (name == b) && edge a b g)
  unfolding has
  edge-detach name a b = ground (
    arith,
    get-drop name a (detach name g).dependencies,
    has-unlink name (get name (detach name g).dependents) g.dependencies b a,
    has-unlink name (get name g.dependencies) g.dependents a name,
    v.mirror a name,
  )

  pub back_edge-detach :
      (name a b : ℕ)
      → has a (get b (drop name (detach name g).dependents))
        ≡ (not (name == a) && not (name == b) && edge a b g)
  unfolding has
  back_edge-detach name a b = ground (
    arith,
    get-drop name b (detach name g).dependents,
    has-unlink name (get name g.dependencies) g.dependents a b,
    v.mirror a b,
    v.mirror name b,
  )

  -- What insertion does to both maps.
  pub edge-link : (d e a b : ℕ) → edge a b (link d e g) ≡ (((d == a) && (e == b)) || edge a b g)
  edge-link d e a b = ground (
    arith,
    get-put d a (insert e (get d g.dependencies)) g.dependencies,
    has-insert e b (get d g.dependencies),
  )

  pub back_edge-link :
      (d e a b : ℕ) → back_edge a b (link d e g) ≡ (((d == a) && (e == b)) || back_edge a b g)
  back_edge-link d e a b = ground (
    arith,
    get-put e b (insert d (get e g.dependents)) g.dependents,
    has-insert d a (get e g.dependents),
  )

  pub link-IsValid :
      (d e : ℕ) → has_key d g.nodes ≡ true → has_key e g.nodes ≡ true → IsValid (link d e g)
  link-IsValid d e hd he = record {
    mirror = λ a b. ground (arith, edge-link d e a b, back_edge-link d e a b, v.mirror a b);
    known = λ a b h. ground (arith, h, hd, he, edge-link d e a b, v.known a b);
  }

  module _ (text : ℕ → String) where
    pub remove_node-IsValid : (name : ℕ) → IsValid (remove_node text name g).1
    unfolding remove_node
    remove_node-IsValid name = elim (Bool-cases (has_key name g.nodes)) [
      | inl h ↦ rw h (record {
        mirror = λ a b. ground (arith, edge-detach name a b, back_edge-detach name a b);
        known = λ a b e. ground (
          arith,
          e,
          edge-detach name a b,
          v.known a b,
          has_key-drop name a g.nodes,
          has_key-drop name b g.nodes,
        );
      })
      | inr h ↦ rw h v
    ]

    pub add_node-IsValid : (name : ℕ) (check : Option ℕ) → IsValid (add_node text name check g).1
    unfolding add_node has
    add_node-IsValid name none = elim (Bool-cases (name == 0)) [ inl h ↦ rw h v | inr h ↦ rw h v ]
    add_node-IsValid name (some check) = elim (Bool-cases (name == 0)) [
      | inl h ↦ rw h v
      | inr h ↦ elim (Bool-cases (has_key name g.nodes)) [
        | inl k ↦ rw (h, k) v
        | inr k ↦
            rw (h, k)
              (record {
                mirror = λ a b. ground (
                  arith,
                  get-put name a [] g.dependencies,
                  get-put name b [] g.dependents,
                  v.mirror a b,
                  v.known a b,
                  k,
                );
                known = λ a b e. ground (
                  arith,
                  e,
                  get-put name a [] g.dependencies,
                  v.known a b,
                  has_key-put name a check g.nodes,
                  has_key-put name b check g.nodes,
                );
              })
      ]
    ]

    pub remove_dependency-IsValid : (d e : ℕ) → IsValid (remove_dependency text d e g).1
    unfolding remove_dependency
    remove_dependency-IsValid d e = elim (Bool-cases (has_key d g.nodes)) [
      | inr h ↦ rw h v
      | inl h ↦ rw h (record {
        mirror = λ a b. elim (Bool-cases (has_key e g.nodes)) [
          | inl k ↦ rw k (
              ground (
                arith,
                get-put d a (remove e (get d g.dependencies)) g.dependencies,
                has-remove e b (get d g.dependencies),
                get-put e b (remove d (get e g.dependents)) g.dependents,
                has-remove d a (get e g.dependents),
                v.mirror a b,
              ))
          | inr k ↦ rw k (
              ground (
                arith,
                get-put d a (remove e (get d g.dependencies)) g.dependencies,
                has-remove e b (get d g.dependencies),
                v.mirror a b,
                v.known a b,
                k,
              ))
        ];
        known = λ a b i. ground (
          arith,
          i,
          get-put d a (remove e (get d g.dependencies)) g.dependencies,
          has-remove e b (get d g.dependencies),
          v.known a b,
        );
      })
    ]
