-- ===== src/Di/Bootstrapper/Hooks.antt =====
-- Which shutdown hooks run, in which order, and with how much time.
use common_system.Prelude.{
  ℕ, ◌-◌, ◌≤◌, ◌<◌, ◌≡◌, ◌⊎◌, Option, none, some, List, [], ◌∷◌, ◌++◌, get_or, length,
}
use common_system.Prelude.Maps.{Map}
use common_system.Di.Container
use common_system.Di.Container.{Container}
use common_system.Di.Bootstrapper.{Bootstrapper}

-- Every hook has a reading of the clock that is before the timeout.
abbrev pub InTime : ℕ → Map (Option ℕ) → List ℕ → Type 0
InTime timeout [] elapsed = Unit
InTime timeout (hook ∷ hooks) [] = ⊥
InTime timeout (hook ∷ hooks) (now ∷ elapsed) = (now < timeout) × InTime timeout hooks elapsed

module _ (run : ℕ → ℕ → Container → Container) where
  -- What hooks make of the container where each is given the timeout less its reading of the clock.
  abbrev pub effects : ℕ → Map (Option ℕ) → List ℕ → Container → Container
  effects timeout [] elapsed c = c
  effects timeout (hook ∷ hooks) [] c = c
  effects timeout ((name, none) ∷ hooks) (now ∷ elapsed) c = effects timeout hooks elapsed c
  effects timeout ((name, some hook) ∷ hooks) (now ∷ elapsed) c =
      effects timeout hooks elapsed (run hook (timeout - now) c)

  -- The hooks that were reached and those that were left out, in the order of the loop.
  abbrev pub Ran : ℕ → Map (Option ℕ) → List ℕ → Map (Option ℕ) → Map (Option ℕ) → Type 0
  Ran timeout order elapsed reached skipped =
      (order ≡ reached ++ skipped)
      × InTime timeout reached elapsed
      × ((skipped ≡ []) ⊎ (timeout ≤ get_or elapsed (length reached) 0))
