-- ===== src/Health/Graph/Impact/Exact.antt =====
-- What the traversal of get_failure_impact collects.
use common_system.Prelude.{
  ℕ, zero, suc, ◌+◌, ◌<◌, true, ◌||◌, ◌≡◌, refl, subst, some, ◌↔◌, inl, inr, List, [], ◌∷◌, ◌==◌,
  length, arith, Bool-cases,
}
use common_system.Health.Graph.{Graph}
use common_system.Health.Graph.Cycles.{Route, stay, via}
use common_system.Health.Graph.Edges.{edge, IsValid}
use common_system.Prelude.Maps.{has, get}
use common_system.Health.Graph.Impact.{
  visit, spread, get_failure_impact, spared, has-visit_impacted, has-visit_queue, visit-bound,
}

-- k depends on name, directly or not.
abbrev pub DependsOn : Graph → ℕ → ℕ → Type 0
DependsOn g k name = (b : ℕ) × (edge k b g ≡ true) × Route g.dependencies b name

module _ (g : Graph) (v : IsValid g) (name : ℕ) where
  -- What the loop keeps.
  record Spread (impacted to_visit : List ℕ) : Type 0 where
    affected : (k : ℕ) → has k impacted ≡ true → DependsOn g k name
    reached : (k : ℕ) → has k to_visit ≡ true → Route g.dependencies k name
    followed :
        (k j : ℕ)
        → ((name == k) || has k impacted) ≡ true
        → has j (get k g.dependents) ≡ true
        → (has k to_visit || has j impacted) ≡ true

  step-Spread :
      (current : ℕ) (impacted to_visit : List ℕ)
      → Spread impacted (current ∷ to_visit)
      → Spread
          (visit (get current g.dependents) impacted to_visit).0
          (visit (get current g.dependents) impacted to_visit).1
  unfolding has
  step-Spread c impacted to_visit s = record {
    affected = λ k h. elim (Bool-cases (has k impacted)) [
      | inl old ↦ s.affected k old
      | inr new ↦ (
        c,
        ground (
          arith,
          h,
          new,
          v.mirror k c,
          has-visit_impacted (get c g.dependents) impacted to_visit k,
        ),
        s.reached c (ground arith),
      )
    ];
    reached = λ k h. elim (Bool-cases (has k to_visit)) [
      | inl old ↦ s.reached k (ground (arith, old))
      | inr new ↦
          via
            (ground (
              arith,
              h,
              new,
              v.mirror k c,
              has-visit_queue (get c g.dependents) impacted to_visit k,
            ))
            (s.reached c (ground arith))
    ];
    followed = λ k j hk hj. ground (
      arith,
      hk,
      hj,
      s.followed k j,
      has-visit_impacted (get c g.dependents) impacted to_visit k,
      has-visit_impacted (get c g.dependents) impacted to_visit j,
      has-visit_queue (get c g.dependents) impacted to_visit k,
    );
  }

  all_affected :
      (impacted : List ℕ) (s : Spread impacted []) (k : ℕ) {b to : ℕ}
      → Route g.dependencies b to
      → to ≡ name
      → edge k b g ≡ true
      → has k impacted ≡ true
  unfolding has
  all_affected impacted s k (stay b) same e = ground (arith, e, same, v.mirror k b, s.followed b k)
  all_affected impacted s k (via {a = b} {b = c} h r) same e =
      ground (arith, e, v.mirror k b, s.followed b k, all_affected impacted s b r same h)

  spread_exact :
      (fuel : ℕ) (impacted to_visit : List ℕ)
      → Spread impacted to_visit
      → length to_visit + spared impacted g.dependents < fuel
      → (out : List ℕ) × (spread fuel g.dependents impacted to_visit ≡ some out)
        × ((k : ℕ) → (has k out ≡ true) ↔ DependsOn g k name)
  unfolding spread
  spread_exact zero impacted to_visit s enough = absurd (omega arith)
  spread_exact (suc fuel) impacted [] s enough =
      (impacted, refl, λ k. (s.affected k, λ (b, e, r). all_affected impacted s k r refl e))
  spread_exact (suc fuel) impacted (c ∷ to_visit) s enough =
      spread_exact fuel _ _ (step-Spread c impacted to_visit s) (
        omega (
          arith,
          enough,
          visit-bound c g.dependents (get c g.dependents) impacted to_visit (λ k h. h),
        ))

  -- On a valid graph, with fuel for every dependent that is stored, get_failure_impact returns, and
  -- the set holds exactly the nodes that depend on the name, directly or through others.
  pub get_failure_impact_exact :
      (fuel : ℕ)
      → 1 + spared [] g.dependents < fuel
      → (out : List ℕ) × (get_failure_impact fuel name g ≡ some out)
        × ((k : ℕ) → (has k out ≡ true) ↔ DependsOn g k name)
  unfolding get_failure_impact has
  get_failure_impact_exact fuel enough =
      spread_exact fuel [] (name ∷ [])
        (record {
          affected = λ k h. absurd (cc h);
          reached = λ k h. subst (λ x. Route g.dependencies x name) (ground (arith, h)) (stay name);
          followed = λ k j hk hj. ground (arith, hk);
        })
        enough
