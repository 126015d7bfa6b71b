-- ===== src/Health/Composite.antt =====
-- composite_health_check.h: several checks as one. A child is its name and what its check answers in
-- this call; `decimal` is std::to_string. The mutex makes every method one step.
pub mod Worst
use Prim.Native.String.{◌++◌ as concat}
use text.Mathlib.Text.{◌==◌ as str_eq}
use common_system.Prelude.{
  ℕ, ◌+◌, ◌%◌, ◌^◌, Bool, true, false, Option, none, some, List, [], ◌∷◌, ◌++◌, String, length, map,
  if◌then◌else◌,
}
use common_system.Health.Status.{
  HealthStatus, healthy, degraded, unhealthy, unknown, HealthCheckResult, eqb_status,
}

pub record Child : Type 0 where
  pub name : String
  pub answer : HealthCheckResult

-- `checks_`
abbrev pub Checks : Type 0
Checks = List Child

unfoldable pub add_check : Option Child → Checks → Checks
add_check none checks = checks
add_check (some child) checks = checks ++ child ∷ []

unfoldable pub remove_check : String → Checks → Bool × Checks
remove_check name [] = (false, [])
remove_check name (child ∷ checks) =
    let (found, rest) = remove_check name checks in
    if str_eq child.name name then (true, checks) else (found, child ∷ rest)

unfoldable pub get_check_names : Checks → List String
get_check_names checks = map (λ child. child.name) checks

-- The variables of the loop in `check`.
pub record Tally : Type 0 where
  pub status : HealthStatus
  pub messages : List String
  pub healthy_count : ℕ
  pub degraded_count : ℕ
  pub unhealthy_count : ℕ

-- `++` on a std::size_t.
abbrev pub increment : ℕ → ℕ
increment n = (n + 1) % 2 ^ 64

abbrev message_of : Child → String
message_of child = concat child.name (concat ": " child.answer.message)

-- The switch over one child's status.
unfoldable pub tally : Child → HealthStatus → Tally → Tally
tally child unhealthy t = record t {
  status = unhealthy;
  messages = t.messages ++ message_of child ∷ [];
  unhealthy_count = increment t.unhealthy_count;
}
tally child degraded t = record t {
  status = if eqb_status t.status unhealthy then t.status else degraded;
  messages = t.messages ++ message_of child ∷ [];
  degraded_count = increment t.degraded_count;
}
tally child unknown t = record t {
  status = if eqb_status t.status healthy then unknown else t.status;
  messages = t.messages ++ message_of child ∷ [];
}
tally child healthy t = record t { healthy_count = increment t.healthy_count }

unfoldable pub tally_all : Checks → Tally → Tally
unfolding tally
tally_all [] t = t
tally_all (child ∷ checks) t = tally_all checks (tally child child.answer.status t)

abbrev pub new_tally : Tally
new_tally = record {
  status = healthy;
  messages = [];
  healthy_count = 0;
  degraded_count = 0;
  unhealthy_count = 0;
}

unfoldable pub append_messages : String → List String → String
append_messages text [] = text
append_messages text (msg ∷ messages) = append_messages (concat text (concat "; " msg)) messages

module _ (decimal : ℕ → String) where
  unfoldable pub summary_text : Tally → String
  unfolding append_messages
  summary_text t = elim t.messages [
    | [] ↦ concat "All " (concat (decimal t.healthy_count) " checks passed")
    | msg ∷ rest ↦
        append_messages
          (concat (decimal t.unhealthy_count)
            (concat " unhealthy, " (concat (decimal t.degraded_count) " degraded")))
          (msg ∷ rest)
  ]

  unfoldable pub check : Checks → HealthCheckResult
  unfolding tally_all summary_text
  check checks =
      let t = tally_all checks new_tally in
      record {
        status = t.status;
        message = summary_text t;
        metadata =
            ("total_checks", decimal (length checks))
            ∷ ("healthy_count", decimal t.healthy_count)
            ∷ ("degraded_count", decimal t.degraded_count)
            ∷ ("unhealthy_count", decimal t.unhealthy_count)
            ∷ [];
      }
