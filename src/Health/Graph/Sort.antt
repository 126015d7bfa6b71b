-- ===== src/Health/Graph/Sort.antt =====
-- topological_sort of health_dependency_graph.h.
pub mod Loop
pub mod Order
pub mod Complete
use common_system.Prelude.{
  ℕ, zero, suc, ◌-◌, ◌%◌, ◌^◌, ◌<◌, Bool, true, false, ◌≡◌, Option, none, some, List, [], ◌∷◌, ◌++◌,
  ℤ, pos, negsuc, eqb_int, ltb, ◌==◌, if◌then◌else◌, length, arith,
}
use common_system.Result.Core.{Result, ok, err, plain_error}
use common_system.Health.Graph.{Graph}
use common_system.Prelude.Maps.{Map, Links, put, at}

-- `static_cast<int>` of a size.
abbrev pub to_int : ℕ → ℤ
to_int n = if ltb (n % 2 ^ 32) (2 ^ 31) then pos (n % 2 ^ 32) else negsuc (2 ^ 32 - 1 - n % 2 ^ 32)

-- `--` on an int; INT_MIN is not met.
abbrev pub decrement : ℤ → ℤ
decrement (pos zero) = negsuc 0
decrement (pos (suc n)) = pos n
decrement (negsuc n) = negsuc (suc n)

-- `in_degree[name]`, which creates a zero where the name is missing.
unfoldable pub degree : ℕ → Map ℤ → ℤ
degree k [] = pos 0
degree k (entry ∷ m) = let rest = degree k m in if entry.0 == k then entry.1 else rest

-- The two loops that fill `in_degree`.
unfoldable pub zero_degrees : Map ℕ → Map ℤ → Map ℤ
zero_degrees [] degrees = degrees
zero_degrees (entry ∷ nodes) degrees = zero_degrees nodes (put entry.0 (pos 0) degrees)

unfoldable pub count_degrees : Links → Map ℤ → Map ℤ
count_degrees [] degrees = degrees
count_degrees (entry ∷ deps) degrees =
    count_degrees deps (put entry.0 (to_int (length entry.1)) degrees)

-- The names that the queue starts with.
unfoldable pub zero_in_degree : Map ℤ → List ℕ
zero_in_degree [] = []
zero_in_degree (entry ∷ degrees) =
    let rest = zero_in_degree degrees in if eqb_int entry.1 (pos 0) then entry.0 ∷ rest else rest

-- The loop over the dependents of one node, with `in_degree` and the queue.
unfoldable pub relax : List ℕ → Map ℤ → List ℕ → Map ℤ × List ℕ
relax [] degrees queue = (degrees, queue)
relax (dependent ∷ rest) degrees queue =
    let less = decrement (degree dependent degrees) in
    relax rest (put dependent less degrees)
      (if eqb_int less (pos 0) then queue ++ dependent ∷ [] else queue)

-- Fuel bounds the iterations; none is the end of the fuel or the exception of `at`.
unfoldable pub sort_loop : ℕ → Links → Map ℤ → List ℕ → List ℕ → Option (List ℕ)
sort_loop zero m degrees queue result = none
sort_loop (suc fuel) m degrees [] result = some result
sort_loop (suc fuel) m degrees (current ∷ queue) result = elim (at current m) [
  | none ↦ none
  | some ds ↦
      sort_loop fuel m (relax ds degrees queue).0 (relax ds degrees queue).1
        (result ++ current ∷ [])
]

abbrev pub sorted : Graph → Option (List ℕ) → Option (Result (List ℕ))
sorted g none = none
sorted g (some result) = some (
    if length result == length g.nodes
    then ok result
    else err (plain_error (pos 1) "Cycle detected in dependency graph" "health_dependency_graph"))

unfoldable pub topological_sort : ℕ → Graph → Option (Result (List ℕ))
topological_sort fuel g =
    let degrees = count_degrees g.dependencies (zero_degrees g.nodes []) in
    sorted g (sort_loop fuel g.dependents degrees (zero_in_degree degrees) [])

pub to_int_small : (n : ℕ) → n < 2 ^ 31 → to_int n ≡ pos n
to_int_small n h = ground arith
