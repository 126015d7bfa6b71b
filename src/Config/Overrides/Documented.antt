-- ===== src/Config/Overrides/Documented.antt =====
-- The documented fields.
use common_system.Prelude.{ℕ, true, ◌≡◌, refl, Option, String, ℤ, All}
use common_system.Config.Overrides.{apply_override, find_setting}
use common_system.Config.UnifiedConfig.{
  UnifiedConfig, FieldMetadata, get_config_metadata, is_hot_reloadable,
}
use common_system.Result.Core.{is_ok, ok}

-- Every field that the table describes, and so every key that the help text lists, is accepted as an
-- override with any value and on any configuration; and is_hot_reloadable answers for it what the
-- table says.
pub metadata_accepted :
    {Double : Type 0} (nothing : Double) (stoull : String → Option ℕ) (stoll : String → Option ℤ)
    (stod : String → Option Double) (value : String) (config : UnifiedConfig Double)
    → All
        (λ (field : FieldMetadata).
          (is_ok (apply_override nothing stoull stoll stod field.path value config).0 ≡ true)
          × (is_hot_reloadable field.path ≡ field.hot_reloadable))
        get_config_metadata
unfolding apply_override find_setting is_hot_reloadable is_ok ok
metadata_accepted nothing stoull stoll stod value config = (
  (refl, refl),
  (
    (refl, refl),
    (
      (refl, refl),
      (
        (refl, refl),
        (
          (refl, refl),
          (
            (refl, refl),
            (
              (refl, refl),
              (
                (refl, refl),
                (
                  (refl, refl),
                  (
                    (refl, refl),
                    (
                      (refl, refl),
                      (
                        (refl, refl),
                        (
                          (refl, refl),
                          (
                            (refl, refl),
                            (
                              (refl, refl),
                              ((refl, refl), ((refl, refl), ((refl, refl), ((refl, refl), tt)))),
                            ),
                          ),
                        ),
                      ),
                    ),
                  ),
                ),
              ),
            ),
          ),
        ),
      ),
    ),
  ),
)
