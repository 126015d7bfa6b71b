-- ===== src/Config/Overrides/LastWins.antt =====
-- Overrides of one key.
use common_system.Prelude.{
  ℕ, ◌≡◌, refl, ap, sym, subst, ◌∙◌, inl, inr, Option, none, some, List, [], ◌∷◌, String, ℤ, All,
  Bool-cases, Option-cases,
}
use common_system.Config.CliParser.{same_text}
use common_system.Config.Overrides.{apply_override, find_setting, settings, Setter}
use common_system.Config.UnifiedConfig.{UnifiedConfig}
use common_system.Result.Core.{ok}

module _ {Double : Type 0} (nothing : Double) (stoull : String → Option ℕ)
    (stoll : String → Option ℤ) (stod : String → Option Double) where
  abbrev Setters : Type 0
  Setters = List (String × Setter nothing stoull stoll stod)

  -- A later value covers an earlier one.
  abbrev Covers : Setter nothing stoull stoll stod → Type 0
  Covers set = (v w : String) (c : UnifiedConfig Double) → set w (set v c) ≡ set w c

  abbrev CoversIfFound : Option (Setter nothing stoull stoll stod) → Type 0
  CoversIfFound none = Unit
  CoversIfFound (some set) = Covers set

  found-Covers :
      (key : String) (entries : Setters)
      → All (λ (entry : String × Setter nothing stoull stoll stod). Covers entry.1) entries
      → CoversIfFound (find_setting nothing stoull stoll stod key entries)
  unfolding find_setting
  found-Covers key [] all = tt
  found-Covers key (entry ∷ rest) all = elim (Bool-cases (same_text key entry.0)) [
    | inl same ↦ rw same all.0
    | inr other ↦ rw other (found-Covers key rest all.1)
  ]

  settings-Cover :
      All
        (λ (entry : String × Setter nothing stoull stoll stod). Covers entry.1)
        (settings nothing stoull stoll stod)
  settings-Cover = (
    λ v w c. refl,
    (
      λ v w c. refl,
      (
        λ v w c. refl,
        (
          λ v w c. refl,
          (
            λ v w c. refl,
            (
              λ v w c. refl,
              (
                λ v w c. refl,
                (
                  λ v w c. refl,
                  (
                    λ v w c. refl,
                    (
                      λ v w c. refl,
                      (
                        λ v w c. refl,
                        (
                          λ v w c. refl,
                          (
                            λ v w c. refl,
                            (
                              λ v w c. refl,
                              (
                                λ v w c. refl,
                                (
                                  λ v w c. refl,
                                  (
                                    λ v w c. refl,
                                    (
                                      λ v w c. refl,
                                      (
                                        λ v w c. refl,
                                        (
                                          λ v w c. refl,
                                          (
                                            λ v w c. refl,
                                            (
                                              λ v w c. refl,
                                              (
                                                λ v w c. refl,
                                                (
                                                  λ v w c. refl,
                                                  (
                                                    λ v w c. refl,
                                                    (
                                                      λ v w c. refl,
                                                      (
                                                        λ v w c. refl,
                                                        (
                                                          λ v w c. refl,
                                                          (
                                                            λ v w c. refl,
                                                            (
                                                            λ v w c. refl,
                                                            (
                                                            λ v w c. refl,
                                                            (
                                                            λ v w c. refl,
                                                            (
                                                            λ v w c. refl,
                                                            (
                                                            λ v w c. refl,
                                                            (
                                                            λ v w c. refl,
                                                            (
                                                            λ v w c. refl,
                                                            (
                                                            λ v w c. refl,
                                                            (
                                                            λ v w c. refl,
                                                            (
                                                            λ v w c. refl,
                                                            (
                                                            λ v w c. refl,
                                                            (
                                                            λ v w c. refl,
                                                            (
                                                            λ v w c. refl,
                                                            (
                                                            λ v w c. refl,
                                                            (
                                                            λ v w c. refl,
                                                            (
                                                            λ v w c. refl,
                                                            (
                                                            λ v w c. refl,
                                                            (λ v w c. refl, (λ v w c. refl, tt)),
                                                            ),
                                                            ),
                                                            ),
                                                            ),
                                                            ),
                                                            ),
                                                            ),
                                                            ),
                                                            ),
                                                            ),
                                                            ),
                                                            ),
                                                            ),
                                                            ),
                                                            ),
                                                            ),
                                                            ),
                                                          ),
                                                        ),
                                                      ),
                                                    ),
                                                  ),
                                                ),
                                              ),
                                            ),
                                          ),
                                        ),
                                      ),
                                    ),
                                  ),
                                ),
                              ),
                            ),
                          ),
                        ),
                      ),
                    ),
                  ),
                ),
              ),
            ),
          ),
        ),
      ),
    ),
  )

  applied :
      (key u : String) (set : Setter nothing stoull stoll stod) (c : UnifiedConfig Double)
      → find_setting nothing stoull stoll stod key (settings nothing stoull stoll stod) ≡ some set
      → apply_override nothing stoull stoll stod key u c ≡ (ok tt, set u c)
  unfolding apply_override
  applied key u set c found = rw (found, apply_override) refl

  -- Of two overrides of one key only the last counts: its answer and the configuration that it leaves
  -- are those that it gives on the configuration before the first, whatever the values, and also for
  -- an unknown key.
  pub override_last_wins :
      (key v w : String) (config : UnifiedConfig Double)
      → apply_override nothing stoull stoll stod key w
          (apply_override nothing stoull stoll stod key v config).1
        ≡ apply_override nothing stoull stoll stod key w config
  unfolding apply_override
  override_last_wins key v w config =
      let entries = settings nothing stoull stoll stod in
      elim (Option-cases (find_setting nothing stoull stoll stod key entries)) [
        | inl unknown ↦
            ap (λ c. apply_override nothing stoull stoll stod key w c)
              (rw (unknown, apply_override) refl)
        | inr (set, found) ↦
            let covers : Covers set =
              subst CoversIfFound found (found-Covers key entries settings-Cover) in
            ap (λ p. apply_override nothing stoull stoll stod key w p.1)
              (applied key v set config found)
            ∙ applied key w set (set v config) found
            ∙ ap (λ c. (ok tt, c)) (covers v w config)
            ∙ sym (applied key w set config found)
      ]
