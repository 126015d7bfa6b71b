-- ===== src/Patterns/EventBus.antt =====
-- simple_event_bus of event_bus.h. A type of events, an event, a handler, a filter and an error
-- callback are numbers, and `run`, `accepts` and `report` what they do: return or throw, and what they
-- do to the bus, since they run outside of its lock, and to the rest of the program, of any type `S`.
-- A filter changes nothing. The position of a new element among those of its key is not
-- specified for the multimap, so it is an argument. The overloads for `event` are these methods at
-- its type.
pub mod Valid
pub mod Delivery
use Prim.Native.String.{◌++◌ as concat}
use common_system.Prelude.{
  ℕ, zero, suc, ◌+◌, ◌%◌, ◌^◌, Bool, true, false, Option, none, some, List, [], ◌∷◌, ◌++◌, String,
  ◌==◌, if◌then◌else◌,
}

pub data Handler : Type 0 where
  plain : ℕ → Handler
  filtered : ℕ → ℕ → Handler

-- subscription_info
pub record Subscription : Type 0 where
  pub id : ℕ
  pub expected_type_id : ℕ
  pub handler : Handler

pub record EventBus : Type 0 where
  pub handlers : List (ℕ × Subscription)
  pub next_id : ℕ
  pub running : Bool
  pub error_callback : Option ℕ

unfoldable pub new_bus : EventBus
new_bus = record { handlers = []; next_id = 1; running = true; error_callback = none }

unfoldable pub emplace : ℕ → ℕ × Subscription → List (ℕ × Subscription) → List (ℕ × Subscription)
emplace slot info [] = info ∷ []
emplace zero info (entry ∷ handlers) = info ∷ entry ∷ handlers
emplace (suc slot) info (entry ∷ handlers) = entry ∷ emplace slot info handlers

abbrev pub subscribe_handler : ℕ → ℕ → Handler → EventBus → ℕ × EventBus
subscribe_handler slot type_id handler b = (
  b.next_id,
  record b {
    next_id = (b.next_id + 1) % 2 ^ 64;
    handlers =
        emplace slot
          (type_id, record { id = b.next_id; expected_type_id = type_id; handler = handler })
          b.handlers;
  },
)

unfoldable pub subscribe : ℕ → ℕ → ℕ → EventBus → ℕ × EventBus
unfolding emplace
subscribe slot type_id func b = subscribe_handler slot type_id (plain func) b

unfoldable pub subscribe_filtered : ℕ → ℕ → ℕ → ℕ → EventBus → ℕ × EventBus
unfolding emplace
subscribe_filtered slot type_id func filter b =
    subscribe_handler slot type_id (filtered func filter) b

-- The loop over the map, which erases.
unfoldable pub erase_id : ℕ → List (ℕ × Subscription) → List (ℕ × Subscription)
erase_id id [] = []
erase_id id (entry ∷ handlers) =
    let rest = erase_id id handlers in if entry.1.id == id then rest else entry ∷ rest

unfoldable pub unsubscribe : ℕ → EventBus → EventBus
unsubscribe id b = record b { handlers = erase_id id b.handlers }

unfoldable pub start : EventBus → EventBus
start b = record b { running = true }

unfoldable pub stop : EventBus → EventBus
stop b = record b { running = false }

-- An empty callback is none.
unfoldable pub set_error_callback : Option ℕ → EventBus → EventBus
set_error_callback callback b = record b { error_callback = callback }

unfoldable pub clear_error_callback : EventBus → EventBus
clear_error_callback b = record b { error_callback = none }

-- equal_range, copied.
unfoldable pub snapshot : ℕ → List (ℕ × Subscription) → List Subscription
snapshot type_id [] = []
snapshot type_id (entry ∷ handlers) =
    let rest = snapshot type_id handlers in if entry.0 == type_id then entry.1 ∷ rest else rest

-- How a call ends: with a std::exception by its text, or with something else thrown.
pub data Outcome : Type 0 where
  returned : Outcome
  threw : String → Outcome
  threw_unknown : Outcome

-- The bus, and what else the program has that a handler can change.
pub record World (S : Type 0) : Type 0 where
  pub bus : EventBus
  pub outside : S

module _ {S : Type 0} (run : ℕ → ℕ → World S → Outcome × World S) (accepts : ℕ → ℕ → Outcome × Bool)
    (report : ℕ → String → ℕ → ℕ → World S → Outcome × World S) where
  -- The wrapped handler of subscribe_filtered.
  abbrev pub pass : ℕ → ℕ → World S → Outcome × Bool → Outcome × World S
  pass func evt w (returned, true) = run func evt w
  pass func evt w (returned, false) = (returned, w)
  pass func evt w (threw message, _) = (threw message, w)
  pass func evt w (threw_unknown, _) = (threw_unknown, w)

  abbrev pub call_handler : Handler → ℕ → World S → Outcome × World S
  call_handler (plain func) evt w = run func evt w
  call_handler (filtered func filter) evt w = pass func evt w (accepts filter evt)

  abbrev pub error_cb : Option ℕ → String → ℕ → ℕ → World S → Outcome × World S
  error_cb none message type_id id w = (returned, w)
  error_cb (some callback) message type_id id w = report callback message type_id id w

  -- The two catch clauses.
  abbrev pub catch_error : Option ℕ → ℕ → ℕ → Outcome × World S → Outcome × World S
  catch_error callback type_id id (returned, w) = (returned, w)
  catch_error callback type_id id (threw message, w) =
      error_cb callback (concat "Exception in event handler: " message) type_id id w
  catch_error callback type_id id (threw_unknown, w) =
      error_cb callback "Unknown exception in event handler" type_id id w

  -- One entry of the snapshot.
  unfoldable pub visit_entry : Option ℕ → ℕ → ℕ → Subscription → World S → Outcome × World S
  visit_entry callback type_id evt entry w = catch_error callback type_id entry.id (
      if entry.expected_type_id == type_id
      then call_handler entry.handler evt w
      else error_cb callback "Type ID mismatch detected in event handler" type_id entry.id w)

  -- What is thrown by the error callback in a catch clause ends the loop.
  abbrev pub proceed : (World S → Outcome × World S) → Outcome × World S → Outcome × World S
  proceed next (returned, w) = next w
  proceed next (threw message, w) = (threw message, w)
  proceed next (threw_unknown, w) = (threw_unknown, w)

  unfoldable pub publish_all : Option ℕ → ℕ → ℕ → List Subscription → World S → Outcome × World S
  unfolding visit_entry
  publish_all callback type_id evt [] w = (returned, w)
  publish_all callback type_id evt (entry ∷ rest) w =
      proceed (publish_all callback type_id evt rest) (visit_entry callback type_id evt entry w)

  unfoldable pub publish : ℕ → ℕ → World S → Outcome × World S
  unfolding publish_all snapshot
  publish type_id evt w =
      publish_all w.bus.error_callback type_id evt (snapshot type_id w.bus.handlers) w
