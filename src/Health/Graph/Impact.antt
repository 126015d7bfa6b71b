-- ===== src/Health/Graph/Impact.antt =====
-- get_failure_impact of health_dependency_graph.h: the nodes that a failure reaches.
pub mod Exact
use common_system.Prelude.{
  ℕ, zero, suc, ◌+◌, ◌≤◌, ◌<◌, Bool, true, false, not, ◌&&◌, ◌||◌, ◌≡◌, refl, subst, Option, none,
  some, ◌↔◌, inl, inr, List, [], ◌∷◌, ◌++◌, ◌==◌, if◌then◌else◌, length, length-append, arith,
  Bool-cases,
}
use common_system.Health.Graph.{Graph}
use common_system.Health.Graph.Cycles.{Route, stay, via}
use common_system.Health.Graph.Edges.{edge, IsValid}
use common_system.Prelude.Sets.{unseen, unseen-grows, unseen-drops}
use common_system.Prelude.Maps.{Links, has, get, has-append}

-- The loop over one node's dependents, with `impacted` and `to_visit`.
unfoldable pub visit : List ℕ → List ℕ → List ℕ → List ℕ × List ℕ
visit [] impacted to_visit = (impacted, to_visit)
visit (dependent ∷ rest) impacted to_visit =
    visit rest (if has dependent impacted then impacted else dependent ∷ impacted)
      (if has dependent impacted then to_visit else to_visit ++ dependent ∷ [])

-- The outer loop. Fuel bounds the iterations.
unfoldable pub spread : ℕ → Links → List ℕ → List ℕ → Option (List ℕ)
spread zero m impacted to_visit = none
spread (suc fuel) m impacted [] = some impacted
spread (suc fuel) m impacted (current ∷ to_visit) =
    spread fuel m (visit (get current m) impacted to_visit).0
      (visit (get current m) impacted to_visit).1

unfoldable pub get_failure_impact : ℕ → ℕ → Graph → Option (List ℕ)
get_failure_impact fuel name g = spread fuel g.dependents [] (name ∷ [])

pub has-visit_impacted :
    (ds impacted to_visit : List ℕ) (k : ℕ)
    → has k (visit ds impacted to_visit).0 ≡ (has k impacted || has k ds)
unfolding visit has
has-visit_impacted [] impacted to_visit k = ground arith
has-visit_impacted (d ∷ ds) impacted to_visit k = elim (Bool-cases (has d impacted)) [
  | inl old ↦ rw (old, visit) (ground (arith, old, has-visit_impacted ds impacted to_visit k))
  | inr new ↦
      rw (new, visit) (ground (arith, has-visit_impacted ds (d ∷ impacted) (to_visit ++ d ∷ []) k))
]

pub has-visit_queue :
    (ds impacted to_visit : List ℕ) (k : ℕ)
    → has k (visit ds impacted to_visit).1 ≡ (has k to_visit || (has k ds && not (has k impacted)))
unfolding visit has
has-visit_queue [] impacted to_visit k = ground arith
has-visit_queue (d ∷ ds) impacted to_visit k = elim (Bool-cases (has d impacted)) [
  | inl old ↦ rw (old, visit) (ground (arith, old, has-visit_queue ds impacted to_visit k))
  | inr new ↦
      rw (new, visit)
        (ground (
          arith,
          new,
          has-visit_queue ds (d ∷ impacted) (to_visit ++ d ∷ []) k,
          has-append k to_visit (d ∷ []),
        ))
]

-- How many of the dependents that are stored are not impacted yet.
abbrev pub spared : List ℕ → Links → ℕ
spared impacted [] = 0
spared impacted (entry ∷ m) = unseen impacted entry.1 + spared impacted m

spared-grows : (d : ℕ) (impacted : List ℕ) (m : Links) → spared (d ∷ impacted) m ≤ spared impacted m
spared-grows d impacted [] = omega arith
spared-grows d impacted (entry ∷ m) =
    omega (arith, spared-grows d impacted m, unseen-grows d impacted entry.1)

spared-drops :
    (d c : ℕ) (impacted : List ℕ) (m : Links)
    → has d impacted ≡ false
    → has d (get c m) ≡ true
    → spared (d ∷ impacted) m < spared impacted m
unfolding has get
spared-drops d c impacted [] new h = absurd (cc h)
spared-drops d c impacted (entry ∷ m) new h = elim (Bool-cases (entry.0 == c)) [
  | inl here ↦ omega (
    arith,
    unseen-drops d impacted entry.1 new (ground (arith, h, here)),
    spared-grows d impacted m,
  )
  | inr there ↦ omega (
    arith,
    spared-drops d c impacted m new (ground (arith, h, there)),
    unseen-grows d impacted entry.1,
  )
]

pub visit-bound :
    (c : ℕ) (m : Links) (ds impacted to_visit : List ℕ)
    → ((k : ℕ) → has k ds ≡ true → has k (get c m) ≡ true)
    → length (visit ds impacted to_visit).1 + spared (visit ds impacted to_visit).0 m
      ≤ length to_visit + spared impacted m
unfolding visit has
visit-bound c m [] impacted to_visit sub = omega arith
visit-bound c m (d ∷ ds) impacted to_visit sub = elim (Bool-cases (has d impacted)) [
  | inl old ↦
      rw (old, visit) (visit-bound c m ds impacted to_visit (λ k h. sub k (ground (arith, h))))
  | inr new ↦
      rw (new, visit)
        (omega (
          arith,
          visit-bound c m ds (d ∷ impacted) (to_visit ++ d ∷ []) (λ k h. sub k (ground (arith, h))),
          spared-drops d c impacted m new (sub d (ground arith)),
          length-append to_visit (d ∷ []),
        ))
]
