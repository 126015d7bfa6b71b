-- ===== src/Patterns/EventBus/Delivery.antt =====
-- Which handlers a publication runs.
use common_system.Prelude.{
  ℕ, Bool, false, ◌≡◌, ◌⊎◌, Option, some, List, [], ◌∷◌, ◌++◌, String, if◌then◌else◌,
}
use common_system.Patterns.EventBus.{
  Handler, plain, filtered, Subscription, Outcome, returned, threw, threw_unknown, World,
  visit_entry, publish_all, catch_error,
}

-- A log of the runs of handlers, each with its event.
abbrev pub Log : Type 0
Log = List (ℕ × ℕ)

module _ {S : Type 0} where
  -- The world of a program without its log.
  abbrev pub unlogged : World (S × Log) → World S
  unlogged w = record { bus = w.bus; outside = w.outside.0 }

  -- The same handlers, which also write down that they run.
  abbrev pub recorded :
      (ℕ → ℕ → World S → Outcome × World S) → ℕ → ℕ → World (S × Log) → Outcome × World (S × Log)
  recorded run func evt w = (
    (run func evt (unlogged w)).0,
    record {
      bus = (run func evt (unlogged w)).1.bus;
      outside = ((run func evt (unlogged w)).1.outside, w.outside.1 ++ (func, evt) ∷ []);
    },
  )

  -- The same error callbacks, beside the log.
  abbrev pub beside :
      (ℕ → String → ℕ → ℕ → World S → Outcome × World S)
      → ℕ
      → String
      → ℕ
      → ℕ
      → World (S × Log)
      → Outcome × World (S × Log)
  beside report callback message type_id id w = (
    (report callback message type_id id (unlogged w)).0,
    record {
      bus = (report callback message type_id id (unlogged w)).1.bus;
      outside = ((report callback message type_id id (unlogged w)).1.outside, w.outside.1);
    },
  )

-- A filter lets the event pass where it returns true.
abbrev pub passes : Outcome × Bool → Bool
passes (returned, answer) = answer
passes (threw message, _) = false
passes (threw_unknown, _) = false

-- The runs that the entries of a snapshot are due: a plain handler's, and a filtered one's where its
-- filter lets the event pass.
abbrev pub due : (ℕ → ℕ → Outcome × Bool) → ℕ → Handler → Log
due accepts evt (plain func) = (func, evt) ∷ []
due accepts evt (filtered func filter) =
    if passes (accepts filter evt) then (func, evt) ∷ [] else []

abbrev pub all_due : (ℕ → ℕ → Outcome × Bool) → ℕ → List Subscription → Log
all_due accepts evt [] = []
all_due accepts evt (entry ∷ rest) = due accepts evt entry.handler ++ all_due accepts evt rest

-- How a publication ends, by the entries left out.
abbrev pub Ended : Option ℕ → List Subscription → Outcome → Type 0
Ended callback skipped outcome =
    ((outcome ≡ returned) × (skipped ≡ []))
    ⊎ ((f : ℕ) × (callback ≡ some f) × ((outcome ≡ returned) → ⊥))

module _ {S : Type 0} (run : ℕ → ℕ → World S → Outcome × World S) (accepts : ℕ → ℕ → Outcome × Bool)
    (report : ℕ → String → ℕ → ℕ → World S → Outcome × World S) where
  abbrev Thrown : Option ℕ → Outcome → Type 0
  Thrown callback outcome =
      (outcome ≡ returned) ⊎ ((f : ℕ) × (callback ≡ some f) × ((outcome ≡ returned) → ⊥))

  abbrev caught : Option ℕ → ℕ → ℕ → Outcome × World (S × Log) → Outcome × World (S × Log)
  caught callback type_id id out =
      catch_error (recorded run) accepts (beside report) callback type_id id out

  abbrev visited : Option ℕ → ℕ → ℕ → Subscription → World (S × Log) → Outcome × World (S × Log)
  visited callback type_id evt entry w =
      visit_entry (recorded run) accepts (beside report) callback type_id evt entry w

  -- The entries that the loop has come to, those left out, and what ends it.
  abbrev pub Delivered :
      Option ℕ → ℕ → List Subscription → World (S × Log) → Outcome × World (S × Log) → Type 0
  Delivered callback evt entries w out =
      (reached : List Subscription) × (skipped : List Subscription) × (entries ≡ reached ++ skipped)
      × (out.1.outside.1 ≡ w.outside.1 ++ all_due accepts evt reached)
      × Ended callback skipped out.0

  abbrev looped : Option ℕ → ℕ → ℕ → List Subscription → World (S × Log) → Outcome × World (S × Log)
  looped callback type_id evt entries w =
      publish_all (recorded run) accepts (beside report) callback type_id evt entries w
