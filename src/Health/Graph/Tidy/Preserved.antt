-- ===== src/Health/Graph/Tidy/Preserved.antt =====
-- Every method keeps the maps of the graph in step.
use common_system.Prelude.{
  ℕ, true, ◌||◌, ◌≡◌, refl, Option, none, some, List, [], ◌∷◌, ◌==◌, arith, Bool-cases, inl, inr,
  String,
}
use common_system.Health.Graph.{
  Graph, new_graph, unlink, detach, link, add_node, remove_node, remove_dependency,
}
use common_system.Health.Graph.Edges.{IsValid, has-unlink}
use common_system.Prelude.Maps.{
  Links, has, insert, remove, has_key, get, put, drop, get-put, get-drop, has_key-put, has_key-drop,
}
use common_system.Prelude.Sets.{Once, keys, Once-put, Once-drop, Once-insert, Once-remove}
use common_system.Health.Graph.Tidy.{Tidy}

Once-get-put :
    (k j : ℕ) (s : List ℕ) (m : Links) → Once s → Once (get j m) → Once (get j (put k s m))
Once-get-put k j s m new old = elim (Bool-cases (k == j)) [
  | inl same ↦ rw (get-put k j s m) (rw same new)
  | inr other ↦ rw (get-put k j s m) (rw other old)
]

Once-get-drop : (k j : ℕ) (m : Links) → Once (get j m) → Once (get j (drop k m))
Once-get-drop k j m old = elim (Bool-cases (k == j)) [
  | inl same ↦ rw (get-drop k j m) (rw same tt)
  | inr other ↦ rw (get-drop k j m) (rw other old)
]

has_key-unlink :
    (name : ℕ) (ds : List ℕ) (m : Links) (k : ℕ)
    → has_key k (unlink name ds m) ≡ (has_key k m || has k ds)
unfolding unlink has
has_key-unlink name [] m k = ground arith
has_key-unlink name (d ∷ ds) m k = ground (
  arith,
  has_key-unlink name ds (put d (remove name (get d m)) m) k,
  has_key-put d k (remove name (get d m)) m,
)

Once-unlink-keys :
    (name : ℕ) (ds : List ℕ) (m : Links) → Once (keys m) → Once (keys (unlink name ds m))
unfolding unlink
Once-unlink-keys name [] m o = o
Once-unlink-keys name (d ∷ ds) m o =
    Once-unlink-keys name ds (put d (remove name (get d m)) m)
      (Once-put d (remove name (get d m)) m o)

Once-unlink :
    (name : ℕ) (ds : List ℕ) (m : Links)
    → ((k : ℕ) → Once (get k m))
    → (k : ℕ) → Once (get k (unlink name ds m))
unfolding unlink
Once-unlink name [] m o k = o k
Once-unlink name (d ∷ ds) m o k =
    Once-unlink name ds (put d (remove name (get d m)) m)
      (λ j. Once-get-put d j (remove name (get d m)) m (Once-remove name (get d m) (o d)) (o j)) k

pub new_graph-Tidy : Tidy new_graph
unfolding new_graph has_key get
new_graph-Tidy = record {
  listed_dependencies = λ k. refl;
  listed_dependents = λ k. refl;
  once_nodes = tt;
  once_links = tt;
  once_dependencies = λ k. tt;
  once_dependents = λ k. tt;
}

module _ (text : ℕ → String) (g : Graph) (v : IsValid g) (t : Tidy g) where
  added :
      (name check : ℕ)
      → Tidy (record g {
        nodes = put name check g.nodes;
        dependencies = put name [] g.dependencies;
        dependents = put name [] g.dependents;
      })
  added name check = record {
    listed_dependencies = λ k. ground (
      arith,
      has_key-put name k check g.nodes,
      has_key-put name k [] g.dependencies,
      t.listed_dependencies k,
    );
    listed_dependents = λ k. ground (
      arith,
      has_key-put name k check g.nodes,
      has_key-put name k [] g.dependents,
      t.listed_dependents k,
    );
    once_nodes = Once-put name check g.nodes t.once_nodes;
    once_links = Once-put name [] g.dependencies t.once_links;
    once_dependencies = λ k. Once-get-put name k [] g.dependencies tt (t.once_dependencies k);
    once_dependents = λ k. Once-get-put name k [] g.dependents tt (t.once_dependents k);
  }

  pub add_node-Tidy : (name : ℕ) (check : Option ℕ) → Tidy (add_node text name check g).1
  unfolding add_node
  add_node-Tidy name none = elim (Bool-cases (name == 0)) [ inl h ↦ rw h t | inr h ↦ rw h t ]
  add_node-Tidy name (some check) = elim (Bool-cases (name == 0)) [
    | inl h ↦ rw h t
    | inr h ↦ elim (Bool-cases (has_key name g.nodes)) [
      | inl k ↦ rw (h, k) t
      | inr k ↦ rw (h, k) (added name check)
    ]
  ]

  removed :
      (name : ℕ)
      → Tidy (record {
        nodes = drop name g.nodes;
        dependencies = drop name (detach name g).dependencies;
        dependents = drop name (detach name g).dependents;
      })
  removed name = record {
    listed_dependencies = λ k. ground (
      arith,
      has_key-drop name k g.nodes,
      has_key-drop name k (detach name g).dependencies,
      has_key-unlink name (get name (detach name g).dependents) g.dependencies k,
      has-unlink name (get name g.dependencies) g.dependents k name,
      v.mirror k name,
      v.known k name,
      t.listed_dependencies k,
    );
    listed_dependents = λ k. ground (
      arith,
      has_key-drop name k g.nodes,
      has_key-drop name k (detach name g).dependents,
      has_key-unlink name (get name g.dependencies) g.dependents k,
      v.known name k,
      t.listed_dependents k,
    );
    once_nodes = Once-drop name g.nodes t.once_nodes;
    once_links =
        Once-drop name (detach name g).dependencies
          (Once-unlink-keys name (get name (detach name g).dependents) g.dependencies t.once_links);
    once_dependencies = λ k. Once-get-drop name k (detach name g).dependencies (
        Once-unlink name (get name (detach name g).dependents) g.dependencies t.once_dependencies
          k);
    once_dependents = λ k.
        Once-get-drop name k (detach name g).dependents
          (Once-unlink name (get name g.dependencies) g.dependents t.once_dependents k);
  }

  pub remove_node-Tidy : (name : ℕ) → Tidy (remove_node text name g).1
  unfolding remove_node
  remove_node-Tidy name = elim (Bool-cases (has_key name g.nodes)) [
    | inl h ↦ rw h (removed name)
    | inr h ↦ rw h t
  ]

  pub link-Tidy :
      (d e : ℕ) → has_key d g.nodes ≡ true → has_key e g.nodes ≡ true → Tidy (link d e g)
  link-Tidy d e hd he = record {
    listed_dependencies = λ k. ground (
      arith,
      hd,
      has_key-put d k (insert e (get d g.dependencies)) g.dependencies,
      t.listed_dependencies k,
    );
    listed_dependents = λ k. ground (
      arith,
      he,
      has_key-put e k (insert d (get e g.dependents)) g.dependents,
      t.listed_dependents k,
    );
    once_nodes = t.once_nodes;
    once_links = Once-put d (insert e (get d g.dependencies)) g.dependencies t.once_links;
    once_dependencies = λ k.
        Once-get-put d k (insert e (get d g.dependencies)) g.dependencies
          (Once-insert e (get d g.dependencies) (t.once_dependencies d)) (t.once_dependencies k);
    once_dependents = λ k.
        Once-get-put e k (insert d (get e g.dependents)) g.dependents
          (Once-insert d (get e g.dependents) (t.once_dependents e)) (t.once_dependents k);
  }

  separated :
      (d e : ℕ) (dependents : Links)
      → has_key d g.nodes ≡ true
      → ((k : ℕ) → has_key k dependents ≡ has_key k g.nodes)
      → ((k : ℕ) → Once (get k dependents))
      → Tidy (record g {
        dependencies = put d (remove e (get d g.dependencies)) g.dependencies;
        dependents = dependents;
      })
  separated d e dependents hd listed once = record {
    listed_dependencies = λ k. ground (
      arith,
      hd,
      has_key-put d k (remove e (get d g.dependencies)) g.dependencies,
      t.listed_dependencies k,
    );
    listed_dependents = listed;
    once_nodes = t.once_nodes;
    once_links = Once-put d (remove e (get d g.dependencies)) g.dependencies t.once_links;
    once_dependencies = λ k.
        Once-get-put d k (remove e (get d g.dependencies)) g.dependencies
          (Once-remove e (get d g.dependencies) (t.once_dependencies d)) (t.once_dependencies k);
    once_dependents = once;
  }

  pub remove_dependency-Tidy : (d e : ℕ) → Tidy (remove_dependency text d e g).1
  unfolding remove_dependency
  remove_dependency-Tidy d e = elim (Bool-cases (has_key d g.nodes)) [
    | inr hd ↦ rw hd t
    | inl hd ↦ elim (Bool-cases (has_key e g.nodes)) [
      | inr he ↦ rw (hd, he) (separated d e g.dependents hd t.listed_dependents t.once_dependents)
      | inl he ↦
          rw (hd, he)
            (separated d e (put e (remove d (get e g.dependents)) g.dependents) hd
              (λ k. ground (
                arith,
                he,
                has_key-put e k (remove d (get e g.dependents)) g.dependents,
                t.listed_dependents k,
              ))
              (λ k.
                Once-get-put e k (remove d (get e g.dependents)) g.dependents
                  (Once-remove d (get e g.dependents) (t.once_dependents e)) (t.once_dependents k)))
    ]
  ]
