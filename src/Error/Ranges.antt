-- ===== src/Error/Ranges.antt =====
-- The ranges of the error codes: what the static assertions sample, for every code.
use common_system.Prelude.{
  ℕ, ◌+◌, ◌*◌, ◌/◌, ◌≤◌, ◌<◌, ◌≡◌, ◌⊎◌, inl, inr, List, [], String, ℤ, pos, negsuc, arith, All, In,
  All-In, ap, ◌∙◌, ◌==◌, if◌then◌else◌,
}
use common_system.Error.Codes.{
  Category, success, common, thread_system, logger_system, monitoring_system, container_system,
  database_system, network_system, pacs_system, category_base, common_codes, thread_system_codes,
  logger_system_codes, monitoring_system_codes, container_system_codes, database_system_codes,
  network_system_codes, pacs_system_codes,
}
use common_system.Error.Messages.{get_category_name}

-- The name of the hundred that an absolute value falls in.
abbrev pub hundred_name : ℕ → String
hundred_name h =
    if h == 0
    then "Common"
    else if h == 1
    then "ThreadSystem"
    else if h == 2
    then "LoggerSystem"
    else if h == 3
    then "MonitoringSystem"
    else if h == 4
    then "ContainerSystem"
    else if h == 5
    then "DatabaseSystem"
    else if h == 6
    then "NetworkSystem"
    else "PACSSystem"

-- A negative code's category is named by the hundreds of its absolute value, and every code from
-- -700 down counts as PACS.
category_by_hundreds : (n : ℕ) → get_category_name (negsuc n) ≡ hundred_name ((n + 1) / 100)
unfolding get_category_name
category_by_hundreds n = ground arith

-- The codes that a namespace declares.
abbrev pub codes_of : Category → List (String × ℤ)
codes_of success = []
codes_of common = common_codes
codes_of thread_system = thread_system_codes
codes_of logger_system = logger_system_codes
codes_of monitoring_system = monitoring_system_codes
codes_of container_system = container_system_codes
codes_of database_system = database_system_codes
codes_of network_system = network_system_codes
codes_of pacs_system = pacs_system_codes

-- A code lies in the hundred `h` of absolute values. Zero is the success code of the common ones.
abbrev pub InHundred : ℕ → ℤ → Type 0
InHundred h (pos n) = (h ≡ 0) × (n ≡ 0)
InHundred h (negsuc n) = (100 * h ≤ n + 1) × (n + 1 < 100 * h + 100)

-- Every code that a namespace declares lies in the hundred reserved for its system: the range
-- assertions of the source, at every code and not only at the first and the last.
pub codes_in_range : (c : Category) → All (λ e. InHundred (category_base c / 100) e.1) (codes_of c)
unfolding common_codes thread_system_codes logger_system_codes monitoring_system_codes
    container_system_codes database_system_codes network_system_codes pacs_system_codes
codes_in_range success = tt
codes_in_range common = omega arith
codes_in_range thread_system = omega arith
codes_in_range logger_system = omega arith
codes_in_range monitoring_system = omega arith
codes_in_range container_system = omega arith
codes_in_range database_system = omega arith
codes_in_range network_system = omega arith
codes_in_range pacs_system = omega arith

in_range-name :
    (h : ℕ) (c : ℤ) → InHundred h c → (get_category_name c ≡ hundred_name h) ⊎ (c ≡ pos 0)
unfolding get_category_name
in_range-name h (pos n) (eh, en) = inr (ap pos en)
in_range-name h (negsuc n) (lo, hi) =
    let e : (n + 1) / 100 ≡ h = omega arith in inl (category_by_hundreds n ∙ ap hundred_name e)

-- Whatever code a namespace declares, but for the success code, `get_category_name` names the
-- namespace's own system.
pub declared_code-category :
    (c : Category) (e : String × ℤ)
    → In e (codes_of c)
    → (get_category_name e.1 ≡ hundred_name (category_base c / 100)) ⊎ (e.1 ≡ pos 0)
declared_code-category c e i =
    in_range-name (category_base c / 100) e.1 (All-In _ (codes_of c) (codes_in_range c) i)
