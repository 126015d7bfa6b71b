-- ===== src/Health/Graph/Sort/Complete.antt =====
-- topological_sort of an acyclic graph finds an order of all nodes.
use common_system.Prelude.{
  ℕ, zero, suc, ◌+◌, ◌≤◌, ◌<◌, ◌^◌, true, false, ◌≡◌, refl, some, List, [], ◌∷◌, ◌++◌, ℤ, length,
  length-append, arith, Bool-cases, inl, inr, append-nil, ◌∙◌,
}
use common_system.Health.Graph.{Graph}
use common_system.Health.Graph.Cycles.{Route, stay, via, join_routes, passed-Route}
use common_system.Health.Graph.Kept.{Sound}
use common_system.Prelude.Maps.{Map, has, has_key, get, has-append}
use common_system.Prelude.Sets.{
  Once, keys, has-keys, length-keys, unseen, unseen-member, unseen-drops, Once-length, Once-before,
  has-head,
}
use common_system.Health.Graph.Sort.{
  relax, zero_degrees, count_degrees, zero_in_degree, sort_loop, topological_sort,
}
use common_system.Health.Graph.Sort.Loop.{at-get}
use common_system.Health.Graph.Sort.Order.{InOrder, Sorting, step-Sorting, start-Sorting}
use common_system.Result.Core.{ok}

module _ (g : Graph) (s : Sound g) where
  -- A loop that ends with a node left out would lead along dependencies that are left out too, and
  -- so back to a node that it has passed.
  no_one_left :
      (fuel k : ℕ) (passed : List ℕ) (degrees : Map ℤ) (result : List ℕ)
      → Sorting g degrees [] result
      → has_key k g.nodes ≡ true
      → has k result ≡ false
      → has k passed ≡ false
      → ((j : ℕ) → has j passed ≡ true → Route g.dependencies j k)
      → unseen passed (keys g.nodes) < fuel
      → ⊥
  unfolding has
  no_one_left zero k passed degrees result w node out new routes enough = absurd (omega arith)
  no_one_left (suc fuel) k passed degrees result w node out new routes enough =
      let left : 0 < unseen result (get k g.dependencies) =
        ground (arith, w.ready k, node, out, append-nil result) in
      let (j, dep, j_out) = unseen-member result (get k g.dependencies) left in
      elim (Bool-cases (has j (k ∷ passed))) [
        | inl back ↦ s.acyclic k j dep (passed-Route k passed routes j back)
        | inr fresh ↦
            no_one_left fuel j (k ∷ passed) degrees result w (s.valid.known k j dep).1 j_out fresh
              (λ i h. join_routes (passed-Route k passed routes i h) (via dep (stay j)))
              (omega (
                arith,
                enough,
                unseen-drops k passed (keys g.nodes) new (has-keys k g.nodes ∙ node),
              ))
      ]

  all_placed :
      (degrees : Map ℤ) (result : List ℕ)
      → Sorting g degrees [] result
      → (k : ℕ) → has k result ≡ has_key k g.nodes
  unfolding has
  all_placed degrees result w k = elim (Bool-cases (has k result)) [
    | inl placed ↦ ground (arith, placed, w.ready k, append-nil result)
    | inr out ↦ elim (Bool-cases (has_key k g.nodes)) [
      | inr alien ↦ cc (out, alien)
      | inl node ↦ absurd (
          no_one_left (suc (unseen [] (keys g.nodes))) k [] degrees result w node out refl
            (λ j h. absurd (cc h)) (omega arith))
    ]
  ]

  loop_done :
      (fuel : ℕ) (degrees : Map ℤ) (queue result : List ℕ)
      → Sorting g degrees queue result
      → length g.nodes < fuel + length result
      → (out : List ℕ) × (sort_loop fuel g.dependents degrees queue result ≡ some out)
        × InOrder g.dependencies [] out
        × Once out
        × ((k : ℕ) → has k out ≡ has_key k g.nodes)
  unfolding sort_loop
  loop_done zero degrees queue result w enough = absurd (
      omega (
        arith,
        enough,
        length-keys g.nodes,
        Once-length result (keys g.nodes) (Once-before result queue w.once)
            (λ k h. ground (arith, h, w.ready k, has-append k result queue, has-keys k g.nodes)),
      ))
  loop_done (suc fuel) degrees [] result w enough =
      (result, refl, w.ordered, rw append-nil at (w.once), all_placed degrees result w)
  loop_done (suc fuel) degrees (c ∷ queue) result w enough =
      let node : has_key c g.dependents ≡ true = ground (
        arith,
        s.tidy.listed_dependents c,
        w.ready c,
        has-append c result (c ∷ queue),
        has-head c queue,
      ) in
      rw (at-get c g.dependents node, sort_loop)
        (loop_done fuel (relax (get c g.dependents) degrees queue).0
          (relax (get c g.dependents) degrees queue).1 (result ++ c ∷ [])
          (step-Sorting g s.valid s.tidy degrees c queue result w)
          (omega (arith, enough, length-append result (c ∷ []))))

  -- On a sound graph with less than 2 ^ 31 nodes, and fuel for each of them,
  -- topological_sort returns a value, never the error of a cycle or an exception: a list that holds
  -- every node once and nothing else, each behind all its dependencies.
  pub topological_sort_orders :
      (fuel : ℕ)
      → length g.nodes < 2 ^ 31
      → length g.nodes < fuel
      → (out : List ℕ) × (topological_sort fuel g ≡ some (ok out))
        × InOrder g.dependencies [] out
        × Once out
        × ((k : ℕ) → has k out ≡ has_key k g.nodes)
  unfolding topological_sort
  topological_sort_orders fuel few enough =
      let (out, runs, ordered, once, all) =
        loop_done fuel (count_degrees g.dependencies (zero_degrees g.nodes []))
          (zero_in_degree (count_degrees g.dependencies (zero_degrees g.nodes []))) []
          (start-Sorting g s.valid s.tidy few) (omega arith) in
      let le : length out ≤ length g.nodes = omega (
        arith,
        length-keys g.nodes,
        Once-length out (keys g.nodes) once (λ k h. ground (arith, h, all k, has-keys k g.nodes)),
      ) in
      let ge : length g.nodes ≤ length out = omega (
        arith,
        length-keys g.nodes,
        Once-length (keys g.nodes) out s.tidy.once_nodes
            (λ k h. ground (arith, h, all k, has-keys k g.nodes)),
      ) in
      (out, rw runs (ground (arith, le, ge)), ordered, once, all)
