-- ===== src/Utils/Enums/Exact.antt =====
-- Every value has a text of its own, and the texts of a value are those that spell it in any case.
use Prim.Native.String.{String}
use common_system.Prelude.{
  ℕ, Bool, true, ◌≡◌, ◌↔◌, refl, sym, ap, ◌∙◌, Option, none, some, List, [], ◌∷◌, arith, Bool-cases,
  inl, inr, All,
}
use common_system.Health.Status.{HealthStatus, healthy, degraded, unhealthy, unknown}
use common_system.Result.Core.{ok, err}
use common_system.Utils.Enums.{
  EnumTraits, codes, upper, eqb_codes, find_name, find_value, enum_to_string, enum_from_string,
  parsed,
}
use common_system.Utils.Enums.Tables.{
  MetricType, HealthCheckType, LogLevel, gauge, counter, histogram, summary, liveness, readiness,
  startup, dependency, custom, trace, debug, info, warning, error, critical, off,
  health_status_traits, metric_type_traits, health_check_type_traits, log_level_traits,
}

eqb_codes_iff : (s t : List ℕ) → (eqb_codes s t ≡ true) ↔ (s ≡ t)
eqb_codes_iff [] [] = (λ h. refl, λ h. refl)
eqb_codes_iff [] (b ∷ t) = (λ h. cc h, λ h. cc h)
eqb_codes_iff (a ∷ s) [] = (λ h. cc h, λ h. cc h)
eqb_codes_iff (a ∷ s) (b ∷ t) = ground (arith, eqb_codes_iff s t)

-- The text of a value is found as the value's, and is in upper case.
abbrev Found : {E : Type 0} → EnumTraits E → E → Type 0
Found e v =
    (find_value (codes (find_name e.eqb v e.values)) e.values ≡ some v)
    × (upper (find_name e.eqb v e.values) ≡ codes (find_name e.eqb v e.values))

-- What a table has to offer; each holds by computation for a table of the source.
record IsTable {E : Type 0} (e : EnumTraits E) : Type 0 where
  named : All (λ (entry : E × String). find_name e.eqb entry.0 e.values ≡ entry.1) e.values
  found : (v : E) → Found e v

-- What a pair of conversions owes its enumeration.
abbrev pub ReadsBack : (E : Type 0) → EnumTraits E → Type 0
ReadsBack E e =
    ((str : String) (v : E)
      → (enum_from_string ⦃e = e⦄ str ≡ ok v) ↔ (upper str ≡ codes (enum_to_string ⦃e = e⦄ v)))
    × ((v : E) → enum_from_string ⦃e = e⦄ (enum_to_string ⦃e = e⦄ v) ≡ ok v)

find_value-named :
    {E : Type 0} (eqb : E → E → Bool) (table rest : List (E × String)) (text : List ℕ) (v : E)
    → All (λ (entry : E × String). find_name eqb entry.0 table ≡ entry.1) rest
    → find_value text rest ≡ some v
    → text ≡ codes (find_name eqb v table)
unfolding find_value
find_value-named eqb table [] text v named h = absurd (cc h)
find_value-named eqb table (entry ∷ rest) text v named h =
    elim (Bool-cases (eqb_codes (codes entry.1) text)) [
      | inl same ↦
          let value : entry.0 ≡ v = ground (arith, h, same) in
          let at : codes entry.1 ≡ text = (eqb_codes_iff (codes entry.1) text).0 same in
          sym at ∙ ap codes (sym named.0) ∙ ap (λ x. codes (find_name eqb x table)) value
      | inr other ↦ find_value-named eqb table rest text v named.1 (ground (arith, h, other))
    ]

parsed-ok :
    {E : Type 0} (e : EnumTraits E) (str : String) (o : Option E) (v : E)
    → parsed ⦃e = e⦄ str o ≡ ok v
    → o ≡ some v
unfolding ok err
parsed-ok e str none v h = cc h
parsed-ok e str (some w) v h = cc h

IsTable-ReadsBack : {E : Type 0} (e : EnumTraits E) → IsTable e → ReadsBack E e
unfolding enum_to_string enum_from_string
IsTable-ReadsBack e t = (
  λ str v. (
    λ h.
        find_value-named e.eqb e.values e.values (upper str) v t.named
          (parsed-ok e str (find_value (upper str) e.values) v h),
    λ same. rw same (rw (t.found v).0 refl),
  ),
  λ v. rw (t.found v).1 (rw (t.found v).0 refl),
)

health_status-Found : (v : HealthStatus) → Found health_status_traits v
unfolding find_name find_value
health_status-Found healthy = (refl, refl)
health_status-Found degraded = (refl, refl)
health_status-Found unhealthy = (refl, refl)
health_status-Found unknown = (refl, refl)

health_status-IsTable : IsTable health_status_traits
unfolding find_name
health_status-IsTable = record {
  named = (refl, (refl, (refl, (refl, tt))));
  found = health_status-Found;
}

metric_type-Found : (v : MetricType) → Found metric_type_traits v
unfolding find_name find_value
metric_type-Found gauge = (refl, refl)
metric_type-Found counter = (refl, refl)
metric_type-Found histogram = (refl, refl)
metric_type-Found summary = (refl, refl)

metric_type-IsTable : IsTable metric_type_traits
unfolding find_name
metric_type-IsTable = record {
  named = (refl, (refl, (refl, (refl, tt))));
  found = metric_type-Found;
}

health_check_type-Found : (v : HealthCheckType) → Found health_check_type_traits v
unfolding find_name find_value
health_check_type-Found liveness = (refl, refl)
health_check_type-Found readiness = (refl, refl)
health_check_type-Found startup = (refl, refl)
health_check_type-Found dependency = (refl, refl)
health_check_type-Found custom = (refl, refl)

health_check_type-IsTable : IsTable health_check_type_traits
unfolding find_name
health_check_type-IsTable = record {
  named = (refl, (refl, (refl, (refl, (refl, tt)))));
  found = health_check_type-Found;
}

log_level-Found : (v : LogLevel) → Found log_level_traits v
unfolding find_name find_value
log_level-Found trace = (refl, refl)
log_level-Found debug = (refl, refl)
log_level-Found info = (refl, refl)
log_level-Found warning = (refl, refl)
log_level-Found error = (refl, refl)
log_level-Found critical = (refl, refl)
log_level-Found off = (refl, refl)

log_level-IsTable : IsTable log_level_traits
unfolding find_name
log_level-IsTable = record {
  named = (refl, (refl, (refl, (refl, (refl, (refl, (refl, tt)))))));
  found = log_level-Found;
}

-- For health_status, metric_type, health_check_type and log_level: enum_from_string reads a text as
-- a value exactly where the text, in upper case, is the value's text, and it reads the value's text
-- as the value.
pub enums_read_back :
    ReadsBack HealthStatus health_status_traits
    × ReadsBack MetricType metric_type_traits
    × ReadsBack HealthCheckType health_check_type_traits
    × ReadsBack LogLevel log_level_traits
enums_read_back = (
  IsTable-ReadsBack health_status_traits health_status-IsTable,
  IsTable-ReadsBack metric_type_traits metric_type-IsTable,
  IsTable-ReadsBack health_check_type_traits health_check_type-IsTable,
  IsTable-ReadsBack log_level_traits log_level-IsTable,
)
