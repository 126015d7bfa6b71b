-- ===== src/Health/Graph/Check/Propagates.antt =====
-- What check_with_dependencies answers, by the checks of all nodes that a node depends on.
use Prim.Native.String.{◌++◌ as concat}
use common_system.Prelude.{
  ℕ, zero, suc, ◌<◌, true, false, ◌≡◌, refl, subst, ◌⊎◌, inl, inr, Option, none, some, List, [],
  ◌∷◌, String, ◌==◌, length, arith, Bool-cases, Option-cases, ◌∙◌,
}
use common_system.Health.Status.{HealthCheckResult, unhealthy, eqb_status}
use common_system.Health.Graph.{Graph}
use common_system.Health.Graph.Check.{
  Results, Checked, check_dependencies, check_internal, conclude, check_with_dependencies,
}
use common_system.Health.Graph.Cycles.{Route, stay, via, join_routes, passed-Route}
use common_system.Health.Graph.Edges.{edge}
use common_system.Health.Graph.Kept.{Sound}
use common_system.Prelude.Maps.{has, has_key, get, put, at, at-put}
use common_system.Prelude.Sets.{keys, has-keys, length-keys, unseen, unseen-drops, unseen-nil}
use common_system.Result.Core.{ok}

no_result : (j : ℕ) (q : HealthCheckResult) → at j [] ≡ some q → ⊥
unfolding at
no_result j q h = cc h

module _ (text : ℕ → String) (check : ℕ → HealthCheckResult) (g : Graph) where
  -- The node, or one that it depends on, answers unhealthy.
  abbrev pub Fails : ℕ → Type 0
  Fails k = (j : ℕ) × Route g.dependencies k j × (eqb_status (check j).status unhealthy ≡ true)

  -- An answer for a node: unhealthy where it fails, and what its own check says where it does not.
  abbrev pub Right : ℕ → HealthCheckResult → Type 0
  Right k r = ((eqb_status r.status unhealthy ≡ true) × Fails k) ⊎ ((r ≡ check k) × (¬ Fails k))

  abbrev Memo : Results → Type 0
  Memo results = (k : ℕ) (r : HealthCheckResult) → at k results ≡ some r → Right k r

  -- A run of the recursive call that keeps the memo.
  abbrev Answers : ℕ → Checked → Type 0
  Answers k out =
      (r : HealthCheckResult) × (after : Results) × (out ≡ some (ok r, after))
      × Right k r
      × Memo after

  -- What the loop says of a list of dependencies of k.
  abbrev Found : ℕ → List ℕ → Option String → Type 0
  Found k ds none = (d : ℕ) → has d ds ≡ true → ¬ Fails d
  Found k ds (some reason) = (d : ℕ) × (edge k d g ≡ true) × Fails d

  passes :
      (d : ℕ) (r : HealthCheckResult)
      → (r ≡ check d) × (¬ Fails d)
      → eqb_status r.status unhealthy ≡ false
  passes d r (same, fine) = elim (Bool-cases (eqb_status r.status unhealthy)) [
    | inr well ↦ well
    | inl bad ↦
        absurd (fine (d, stay d, subst (λ x. eqb_status x.status unhealthy ≡ true) same bad))
  ]

  loop_stops :
      (visit : ℕ → Results → Checked) (d : ℕ) (ds : List ℕ) (results after : Results)
      (r : HealthCheckResult)
      → visit d results ≡ some (ok r, after)
      → eqb_status r.status unhealthy ≡ true
      → (reason : String) × (check_dependencies text check visit (d ∷ ds) results
          ≡ some (some reason, after))
  unfolding check_dependencies ok
  loop_stops visit d ds results after r runs bad =
      (concat "Dependency unhealthy: " (text d), rw (runs, check_dependencies) (rw bad refl))

  loop_goes_on :
      (visit : ℕ → Results → Checked) (d : ℕ) (ds : List ℕ) (results after : Results)
      (r : HealthCheckResult)
      → visit d results ≡ some (ok r, after)
      → eqb_status r.status unhealthy ≡ false
      → check_dependencies text check visit (d ∷ ds) results
        ≡ check_dependencies text check visit ds after
  unfolding check_dependencies ok
  loop_goes_on visit d ds results after r runs well = rw (runs, check_dependencies) (rw well refl)

  grows :
      (k d : ℕ) (ds : List ℕ) (failure : Option String)
      → (¬ Fails d)
      → Found k ds failure
      → Found k (d ∷ ds) failure
  unfolding has
  grows k d ds none fine found = λ j h. elim (Bool-cases (has j ds)) [
    | inl later ↦ found j later
    | inr here ↦ subst (λ x. ¬ Fails x) (ground (arith, h, here)) fine
  ]
  grows k d ds (some reason) fine found = found

  loop-Found :
      (k : ℕ) (visit : ℕ → Results → Checked) (ds : List ℕ) (results : Results)
      → ((d : ℕ) → edge k d g ≡ true → (rs : Results) → Memo rs → Answers d (visit d rs))
      → ((d : ℕ) → has d ds ≡ true → edge k d g ≡ true)
      → Memo results
      → (failure : Option String) × (after : Results) × (check_dependencies text check visit ds
            results
          ≡ some (failure, after))
        × Found k ds failure
        × Memo after
  unfolding has
  loop-Found k visit [] results answers sub memo =
      (none, results, unfold check_dependencies in refl, (λ d h. absurd (cc h)), memo)
  loop-Found k visit (d ∷ ds) results answers sub memo =
      let e : edge k d g ≡ true = sub d (ground arith) in
      let (r, after, runs, right, memo') = answers d e results memo in
      elim right [
        | inl (bad, fails) ↦
            let (reason, stops) = loop_stops visit d ds results after r runs bad in
            (some reason, after, stops, (d, e, fails), memo')
        | inr fine ↦
            let (failure, last, loops, found, memo'') =
              loop-Found k visit ds after answers (λ j h. sub j (ground (arith, h))) memo' in
            (
              failure,
              last,
              loop_goes_on visit d ds results after r runs (passes d r fine) ∙ loops,
              grows k d ds failure fine.1 found,
              memo'',
            )
      ]

  -- A node whose own check and dependencies are fine does not fail.
  spared-Route :
      (k j : ℕ)
      → Route g.dependencies k j
      → eqb_status (check k).status unhealthy ≡ false
      → ((d : ℕ) → edge k d g ≡ true → ¬ Fails d)
      → eqb_status (check j).status unhealthy ≡ true
      → ⊥
  spared-Route k j (stay x) own fine bad = cc (own, bad)
  spared-Route k j (via {b = d} e r) own fine bad = fine d e (j, r, bad)

  concluded :
      (k : ℕ) (failure : Option String)
      → Found k (get k g.dependencies) failure
      → Right k (conclude text check k failure)
  concluded k none found = elim (Bool-cases (eqb_status (check k).status unhealthy)) [
    | inl bad ↦ inl (bad, (k, stay k, bad))
    | inr well ↦ inr (refl, λ (j, r, bad). spared-Route k j r well found bad)
  ]
  concluded k (some reason) (d, e, (j, r, bad)) = inl (refl, (j, via e r, bad))

  remembers :
      (k : ℕ) (r : HealthCheckResult) (after : Results)
      → Right k r
      → Memo after
      → Memo (put k r after)
  remembers k r after right memo j q h = elim (Bool-cases (k == j)) [
    | inr other ↦ memo j q (ground (arith, h, other, at-put k j r after))
    | inl same ↦
        let eq : r ≡ q = ground (arith, h, same, at-put k j r after) in
        let at : k ≡ j = ground (arith, same) in
        subst (λ x. Right x q) at (subst (λ x. Right k x) eq right)
  ]

  -- A dependency of a node is not one of the nodes that lead to it.
  fresh_dependency :
      (s : Sound g) (k d : ℕ) (passed : List ℕ)
      → ((j : ℕ) → has j passed ≡ true → Route g.dependencies j k)
      → edge k d g ≡ true
      → has d (k ∷ passed) ≡ false
  fresh_dependency s k d passed routes e = elim (Bool-cases (has d (k ∷ passed))) [
    | inr fresh ↦ fresh
    | inl back ↦ absurd (s.acyclic k d e (passed-Route k passed routes d back))
  ]

  module _ (s : Sound g) where
    internal-Answers :
        (fuel k : ℕ) (passed : List ℕ) (results : Results)
        → has_key k g.nodes ≡ true
        → has k passed ≡ false
        → ((j : ℕ) → has j passed ≡ true → Route g.dependencies j k)
        → unseen passed (keys g.nodes) < fuel
        → Memo results
        → Answers k (check_internal text check fuel g k results)
    unfolding check_internal
    internal-Answers zero k passed results node new routes enough memo = absurd (omega arith)
    internal-Answers (suc fuel) k passed results node new routes enough memo =
        elim (Option-cases (at k results)) [
          | inr (r, known) ↦ (r, results, rw (known, check_internal) refl, memo k r known, memo)
          | inl unknown ↦
              let deeper : (d : ℕ)
                  → edge k d g ≡ true
                  → (rs : Results) → Memo rs
                  → Answers d (check_internal text check fuel g d rs) =
                λ d e rs m.
                  internal-Answers fuel d (k ∷ passed) rs (s.valid.known k d e).1
                    (fresh_dependency s k d passed routes e)
                    (λ i h. join_routes (passed-Route k passed routes i h) (via e (stay d)))
                    (omega (
                      arith,
                      enough,
                      unseen-drops k passed (keys g.nodes) new (has-keys k g.nodes ∙ node),
                    ))
                    m in
              let (failure, after, loops, found, memo') =
                loop-Found k (check_internal text check fuel g) (get k g.dependencies) results
                  deeper (λ d h. h) memo in
              (
                conclude text check k failure,
                put k (conclude text check k failure) after,
                rw (unknown, check_internal) (rw (node, loops) refl),
                concluded k failure found,
                remembers k (conclude text check k failure) after (concluded k failure found) memo',
              )
        ]

    -- On a node of a sound graph, with fuel for every node, check_with_dependencies answers: an
    -- unhealthy result exactly where the check of the node or of one that it depends on, directly or
    -- through others, is unhealthy, and what the node's own check says where none is.
    pub check_with_dependencies_answers :
        (fuel k : ℕ)
        → has_key k g.nodes ≡ true
        → length g.nodes < fuel
        → (r : HealthCheckResult) × (check_with_dependencies text check fuel k g ≡ some (ok r))
          × Right k r
    unfolding check_with_dependencies has
    check_with_dependencies_answers fuel k node enough =
        let (r, after, runs, right, memo) =
          internal-Answers fuel k [] [] node refl (λ j h. absurd (cc h))
            (omega (arith, enough, unseen-nil (keys g.nodes), length-keys g.nodes))
            (λ j q h. absurd (no_result j q h)) in
        (r, rw (node, runs) refl, right)
