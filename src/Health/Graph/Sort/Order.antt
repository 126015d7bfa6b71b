-- ===== src/Health/Graph/Sort/Order.antt =====
-- What the main loop of topological_sort keeps.
use common_system.Prelude.{
  ℕ, ◌+◌, ◌≤◌, ◌<◌, ◌^◌, true, false, ◌&&◌, ◌||◌, ◌≡◌, refl, List, [], ◌∷◌, ◌++◌, ℤ, pos, ◌==◌,
  if◌then◌else◌, length, arith, Bool-cases, inl, inr, append_assoc,
}
use common_system.Health.Graph.{Graph}
use common_system.Health.Graph.Edges.{IsValid}
use common_system.Prelude.Maps.{Map, Links, has, has_key, get, has-append}
use common_system.Prelude.Sets.{
  Once, keys, has-keys, unseen, unseen-concat, unseen-zero, Once-length, unseen-nil, length-keys,
  get-missing,
}
use common_system.Health.Graph.Sort.{
  degree, relax, zero_degrees, count_degrees, zero_in_degree, to_int_small,
}
use common_system.Health.Graph.Sort.Loop.{
  degree-relax, has-relax, Once-relax, degree-count, degree-zeros, has_key-zeros, has_key-count,
  Once-zeros, Once-count, has-zero_in_degree, Once-zero_in_degree,
}
use common_system.Health.Graph.Tidy.{Tidy}

-- Every dependency of a member is in `seen` or stands before it.
abbrev pub InOrder : Links → List ℕ → List ℕ → Type 0
InOrder m seen [] = Unit
InOrder m seen (x ∷ xs) =
    ((d : ℕ) → has d (get x m) ≡ true → has d seen ≡ true) × InOrder m (x ∷ seen) xs

pub InOrder-concat :
    (m : Links) (seen xs : List ℕ) (c : ℕ)
    → InOrder m seen xs
    → ((d : ℕ) → has d (get c m) ≡ true → (has d seen || has d xs) ≡ true)
    → InOrder m seen (xs ++ c ∷ [])
unfolding has
InOrder-concat m seen [] c o deps = (λ d h. ground (arith, deps d h), tt)
InOrder-concat m seen (x ∷ xs) c o deps =
    (o.0, InOrder-concat m (x ∷ seen) xs c o.1 (λ d h. ground (arith, deps d h)))

Once-middle : (r q : List ℕ) (c : ℕ) → Once (r ++ c ∷ q) → has c r ≡ false
unfolding has
Once-middle [] q c o = refl
Once-middle (x ∷ r) q c o = ground (arith, o.0, Once-middle r q c o.1, has-append x r (c ∷ q))

pub record Sorting (g : Graph) (degrees : Map ℤ) (queue result : List ℕ) : Type 0 where
  pub unplaced : (k : ℕ) → degree k degrees ≡ pos (unseen result (get k g.dependencies))
  pub ready :
      (k : ℕ)
      → has k (result ++ queue) ≡ (has_key k g.nodes && (unseen result (get k g.dependencies) == 0))
  pub once : Once (result ++ queue)
  pub ordered : InOrder g.dependencies [] result

module _ (g : Graph) (v : IsValid g) (t : Tidy g) where
  module _ (degrees : Map ℤ) (c : ℕ) (queue result : List ℕ)
      (s : Sorting g degrees (c ∷ queue) result) where
    new : has c result ≡ false
    new = Once-middle result queue c s.once

    -- A dependent of the current node has a dependency less to wait for.
    falls :
        (k : ℕ)
        → unseen (result ++ c ∷ []) (get k g.dependencies)
            + (if has k (get c g.dependents) then 1 else 0)
          ≡ unseen result (get k g.dependencies)
    falls k = ground (
      arith,
      v.mirror k c,
      unseen-concat c result (get k g.dependencies) (t.once_dependencies k) new,
    )

    blocked : (k : ℕ) → has k (get c g.dependents) ≡ true → has k (result ++ c ∷ queue) ≡ false
    blocked k h = ground (arith, h, falls k, s.ready k)

    pub step-Sorting :
        Sorting g
          (relax (get c g.dependents) degrees queue).0
          (relax (get c g.dependents) degrees queue).1
          (result ++ c ∷ [])
    unfolding has
    step-Sorting = record {
      unplaced = λ k. ground (
        arith,
        falls k,
        s.unplaced k,
        degree-relax (get c g.dependents) degrees queue k (t.once_dependents c),
      );
      ready = λ k. ground (
        arith,
        falls k,
        s.unplaced k,
        s.ready k,
        v.mirror k c,
        v.known k c,
        has-relax (get c g.dependents) degrees queue k (t.once_dependents c),
        has-append k result (c ∷ queue),
        has-append k result (c ∷ []),
        has-append k (result ++ c ∷ []) (relax (get c g.dependents) degrees queue).1,
      );
      once =
          Once-relax (get c g.dependents) degrees (result ++ c ∷ []) queue (t.once_dependents c)
            (rw (append_assoc result (c ∷ []) queue) s.once)
            (λ k h. rw (append_assoc result (c ∷ []) queue) (blocked k h));
      ordered = InOrder-concat g.dependencies [] result c s.ordered (λ d h.
          unseen-zero result (get c g.dependencies) d
            (ground (arith, s.ready c, has-append c result (c ∷ queue))) h);
    }

  few_dependencies : (k : ℕ) → length (get k g.dependencies) ≤ length g.nodes
  few_dependencies k = omega (
    arith,
    length-keys g.nodes,
    Once-length (get k g.dependencies) (keys g.nodes) (t.once_dependencies k)
        (λ j h. ground (arith, v.known k j h, has-keys j g.nodes)),
  )

  start_degree :
      (k : ℕ)
      → length g.nodes < 2 ^ 31
      → degree k (count_degrees g.dependencies (zero_degrees g.nodes []))
        ≡ pos (length (get k g.dependencies))
  unfolding degree
  start_degree k few = elim (Bool-cases (has_key k g.dependencies)) [
    | inl listed ↦ cc (
      rw listed at (degree-count g.dependencies (zero_degrees g.nodes []) k t.once_links),
      to_int_small (length (get k g.dependencies)) (omega (arith, few_dependencies k)),
    )
    | inr missing ↦ ground (
      arith,
      degree-count g.dependencies (zero_degrees g.nodes []) k t.once_links,
      degree-zeros g.nodes [] k refl,
      get-missing k g.dependencies missing,
    )
  ]

  pub start-Sorting :
      length g.nodes < 2 ^ 31
      → Sorting g
          (count_degrees g.dependencies (zero_degrees g.nodes []))
          (zero_in_degree (count_degrees g.dependencies (zero_degrees g.nodes [])))
          []
  unfolding has has_key
  start-Sorting few =
      let degrees = count_degrees g.dependencies (zero_degrees g.nodes []) in
      let once = Once-count g.dependencies (zero_degrees g.nodes []) (Once-zeros g.nodes [] tt) in
      record {
        unplaced = λ k. ground (arith, start_degree k few, unseen-nil (get k g.dependencies));
        ready = λ k. ground (
          arith,
          start_degree k few,
          unseen-nil (get k g.dependencies),
          has-zero_in_degree degrees k once,
          has_key-count g.dependencies (zero_degrees g.nodes []) k,
          has_key-zeros g.nodes [] k,
          t.listed_dependencies k,
        );
        once = Once-zero_in_degree degrees once;
        ordered = tt;
      }
