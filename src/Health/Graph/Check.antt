-- ===== src/Health/Graph/Check.antt =====
-- check_with_dependencies of health_dependency_graph.h. `check` is what the check of a node answers;
-- it is run at most once for a node in one call, so the answer is a function of the name.
pub mod Propagates
use Prim.Native.String.{◌++◌ as concat}
use common_system.Prelude.{
  ℕ, zero, suc, Bool, true, false, ◌≡◌, Option, none, some, List, [], ◌∷◌, String, pos, ◌==◌,
  if◌then◌else◌,
}
use common_system.Health.Status.{HealthStatus, unhealthy, HealthCheckResult, eqb_status}
use common_system.Result.Core.{Result, ok, err, plain_error}
use common_system.Health.Graph.{Graph}
use common_system.Prelude.Maps.{Map, has_key, get, put, at}

abbrev pub Results : Type 0
Results = Map HealthCheckResult

-- An answer and the results so far; none where the fuel runs out.
abbrev pub Checked : Type 0
Checked = Option (Result HealthCheckResult × Results)

module _ (text : ℕ → String) (check : ℕ → HealthCheckResult) where
  -- What the loop finds in one dependency: a reason to stop.
  unfoldable pub dependency_failure : ℕ → Result HealthCheckResult → Option String
  dependency_failure dep answer = elim answer.error_ [
    | some e ↦ some (concat "Dependency check failed: " (text dep))
    | none ↦ elim answer.value_ [
      | none ↦ none
      | some r ↦
          if eqb_status r.status unhealthy
          then some (concat "Dependency unhealthy: " (text dep))
          else none
    ]
  ]

  abbrev pub go_on :
      (Results → Option (Option String × Results))
      → Option String
      → Results
      → Option (Option String × Results)
  go_on rest none results = rest results
  go_on rest (some reason) results = some (some reason, results)

  -- The loop over the dependencies; `visit` is the recursive call.
  unfoldable pub check_dependencies :
      (ℕ → Results → Checked) → List ℕ → Results → Option (Option String × Results)
  unfolding dependency_failure
  check_dependencies visit [] results = some (none, results)
  check_dependencies visit (dep ∷ deps) results = elim (visit dep results) [
    | none ↦ none
    | some (answer, after) ↦
        go_on (check_dependencies visit deps) (dependency_failure dep answer) after
  ]

  abbrev pub skipped : String → HealthCheckResult
  skipped reason = record {
    status = unhealthy;
    message = reason;
    metadata = ("skipped", "true") ∷ ("reason", "dependency_failure") ∷ [];
  }

  -- The node's own check, or the result that a failure of a dependency gives.
  abbrev pub conclude : ℕ → Option String → HealthCheckResult
  conclude name none = check name
  conclude name (some reason) = skipped reason

  abbrev pub record_result : ℕ → Option (Option String × Results) → Checked
  record_result name none = none
  record_result name (some (failure, results)) =
      let result = conclude name failure in some (ok result, put name result results)

  unfoldable pub check_internal : ℕ → Graph → ℕ → Results → Checked
  unfolding check_dependencies
  check_internal zero g name results = none
  check_internal (suc fuel) g name results = elim (at name results) [
    | some r ↦ some (ok r, results)
    | none ↦
        if has_key name g.nodes
        then record_result name
            (check_dependencies (check_internal fuel g) (get name g.dependencies) results)
        else some (
          err (
              plain_error (pos 1) (concat "Node not found: " (text name))
                "health_dependency_graph"),
          results,
        )
  ]

  abbrev answer_of : Checked → Option (Result HealthCheckResult)
  answer_of none = none
  answer_of (some (answer, results)) = some answer

  unfoldable pub check_with_dependencies : ℕ → ℕ → Graph → Option (Result HealthCheckResult)
  unfolding check_internal
  check_with_dependencies fuel name g =
      if has_key name g.nodes
      then answer_of (check_internal fuel g name [])
      else some (
          err
            (plain_error (pos 1) (concat "Node not found: " (text name)) "health_dependency_graph"))
