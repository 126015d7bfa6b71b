-- ===== src/Tests/Config.antt =====
-- The command line on concrete arguments.
use common_system.Prelude.{ℕ, true, false, ◌≡◌, refl, [], ◌∷◌, pos}
use common_system.Result.Core.{is_ok, ok, err, plain_error}
use common_system.Prelude.{none, some, String, Option, ℤ, neg, negsuc, All, if◌then◌else◌}
use common_system.Config.Overrides.{apply_override, find_setting, parse_bool}
use common_system.Config.Overrides.LastWins.{override_last_wins}
use common_system.Config.Overrides.Documented.{metadata_accepted}
use common_system.Config.UnifiedConfig.{
  UnifiedConfig, default_unified_config, FieldMetadata, get_config_metadata, is_hot_reloadable,
}
use common_system.Prelude.{◌&&◌}
use common_system.Config.Double.{Double, nan, finite}
use common_system.Config.Validation.{
  validate, get_validation_issues, validate_thread_config, validate_logger_config, validate_writers,
  validate_monitoring_config, validate_database_config, validate_network_config, first_error,
}
use common_system.Config.Validation.Exact.{
  validate_exact, thread_fits, logger_fits, monitoring_fits, database_fits, network_fits,
}
use common_system.Config.CliParser.{
  same_text, ParsedArgs, classify, parse, parse_loop, parse_key_value, split_at_equals, trim_left,
  trim_right,
}
use common_system.Config.CliParser.Print.{print, parse-print}

parse_runs :
    parse ("--config" ∷ "a.yaml" ∷ "run" ∷ "--set= logger.level =a=b" ∷ "-v" ∷ [])
    ≡ ok (record {
      config_path = "a.yaml";
      overrides = ("logger.level", "a=b") ∷ [];
      show_help = false;
      show_version = true;
      positional_args = "run" ∷ [];
    })
unfolding parse parse_loop classify parse_key_value split_at_equals trim_left trim_right ok
parse_runs = refl

parse_fails :
    parse ("--help" ∷ "--set" ∷ [])
    ≡ err (plain_error (pos 2002) "Missing value for --set" "cli_config_parser")
unfolding parse parse_loop classify
parse_fails = refl

abbrev given : ParsedArgs
given = record {
  config_path = "a.yaml";
  overrides = ("thread.pool_size", "4") ∷ ("logger.format", " %t=%m ") ∷ [];
  show_help = false;
  show_version = true;
  positional_args = "run" ∷ "" ∷ [];
}

parse-print_example : parse (print given) ≡ ok given
parse-print_example =
    parse-print given ((refl, refl, refl), ((refl, refl, refl), tt)) (refl, (refl, tt))

-- The library's readers on the texts that occur here.
abbrev stoull : String → Option ℕ
stoull value =
    if same_text value "16" then some 16 else if same_text value "70000" then some 70000 else none

abbrev stoll : String → Option ℤ
stoll value = some (neg 5)

abbrev stod : String → Option ℕ
stod value = none

abbrev config : UnifiedConfig ℕ
config = default_unified_config 1

override_runs :
    ((apply_override 0 stoull stoll stod "thread.pool_size" "16" config).1.thread.pool_size ≡ 16)
    × ((apply_override 0 stoull stoll stod "monitoring.prometheus_port" "70000"
          config).1.monitoring.prometheus_port
        ≡ 4464)
    × ((apply_override 0 stoull stoll stod "network.tls.enabled" "No" config).1.network.tls.enabled
        ≡ false)
    × ((apply_override 0 stoull stoll stod "logger.writers" "file" config).1 ≡ config)
unfolding apply_override find_setting parse_bool
override_runs = (refl, refl, refl, refl)

override_last_wins_example :
    apply_override 0 stoull stoll stod "thread.pool_size" "16"
      (apply_override 0 stoull stoll stod "thread.pool_size" "x" config).1
    ≡ apply_override 0 stoull stoll stod "thread.pool_size" "16" config
override_last_wins_example =
    override_last_wins 0 stoull stoll stod "thread.pool_size" "x" "16" config

metadata_accepted_example :
    All
      (λ (field : FieldMetadata).
        (is_ok (apply_override 0 stoull stoll stod field.path "16" config).0 ≡ true)
        × (is_hot_reloadable field.path ≡ field.hot_reloadable))
      get_config_metadata
metadata_accepted_example = metadata_accepted 0 stoull stoll stod "16" config

-- The default of the sampling rate is the double nearest to 0.1.
abbrev checked : UnifiedConfig Double
checked = default_unified_config (finite false 3602879701896397 (negsuc 54))

abbrev sampled : Double → UnifiedConfig Double
sampled rate = record checked {
  monitoring = record checked.monitoring {
    tracing = record checked.monitoring.tracing { sampling_rate = rate };
  };
}

-- 1.5 is refused and NaN is not. An unknown queue type is an error; the missing certificate path is a warning.
validate_runs :
    (is_ok (validate checked) ≡ true)
    × (is_ok (validate (sampled (finite false 3 (negsuc 0)))) ≡ false)
    × (is_ok (validate (sampled nan)) ≡ true)
    × (is_ok (validate (record checked { thread = record checked.thread { queue_type = "fifo" } }))
        ≡ false)
unfolding validate get_validation_issues validate_thread_config validate_logger_config
    validate_writers validate_monitoring_config validate_database_config validate_network_config
    first_error is_ok ok err
validate_runs = (refl, refl, refl, refl)

validate_exact_example : is_ok (validate checked) ≡ (
    thread_fits checked.thread
    && (logger_fits checked.logger
        && (monitoring_fits checked.monitoring
            && (database_fits checked.database && network_fits checked.network))))
validate_exact_example = validate_exact checked
