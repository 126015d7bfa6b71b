-- ===== src/Tests/Patterns.antt =====
-- The event bus on concrete runs.
use common_system.Prelude.{
  ℕ, ◌+◌, Bool, true, false, ◌≡◌, refl, some, List, [], ◌∷◌, String, ◌==◌, if◌then◌else◌, arith,
}
use common_system.Patterns.EventBus.{
  EventBus, Subscription, plain, new_bus, emplace, subscribe, subscribe_filtered, unsubscribe,
  erase_id, snapshot, Outcome, returned, threw, World, visit_entry, publish_all, publish,
}
use common_system.Patterns.EventBus.Delivery.{Log, recorded, beside}
use common_system.Patterns.EventBus.Valid.{IsValid}
use common_system.Patterns.EventBus.Valid.Calls.{
  BusCall, subscribes, subscribes_filtered, unsubscribes, run_bus, run_bus-IsValid,
  subscribe-unsubscribe, Placed,
}

-- Handler 1 takes all the others off the bus and throws; filter 9 blocks; the rest of the program
-- counts the reports.
abbrev run : ℕ → ℕ → World ℕ → Outcome × World ℕ
run func evt w =
    if func == 1
    then (threw "full", record w { bus = record w.bus { handlers = [] } })
    else (returned, w)

abbrev accepts : ℕ → ℕ → Outcome × Bool
accepts filter evt = (returned, if filter == 9 then false else true)

abbrev report : ℕ → String → ℕ → ℕ → World ℕ → Outcome × World ℕ
report callback message type_id id w = (returned, record w { outside = w.outside + 1 })

abbrev calls : List BusCall
calls =
    subscribes 0 7 1
    ∷ subscribes_filtered 5 7 2 9
    ∷ subscribes 5 8 3
    ∷ subscribes 5 7 4
    ∷ unsubscribes 3
    ∷ []

-- Two handlers and a filtered one for type 7.
abbrev busy : EventBus
busy = run_bus calls new_bus

busy-IsValid : IsValid busy
busy-IsValid = run_bus-IsValid calls (omega arith)

run_bus-IsValid_example : IsValid (run_bus calls new_bus)
run_bus-IsValid_example = run_bus-IsValid calls (omega arith)

abbrev world : World (ℕ × Log)
world = record { bus = record busy { error_callback = some 0 }; outside = (0, []) }

publish_runs :
    let (outcome, w) = publish (recorded run) accepts (beside report) 7 30 world in
    (outcome ≡ returned) × (w.bus.handlers ≡ []) × (w.outside ≡ (1, (1, 30) ∷ (4, 30) ∷ []))
unfolding publish publish_all visit_entry snapshot run_bus subscribe subscribe_filtered unsubscribe
    erase_id emplace new_bus
publish_runs = (refl, refl, refl)

abbrev plain_world : World (ℕ × Log)
plain_world = record { bus = busy; outside = (0, []) }

subscribe-unsubscribe_example :
    let (id, b') = subscribe 1 7 6 busy in
    let info : Subscription = record { id = id; expected_type_id = 7; handler = plain 6 } in
    Placed info (snapshot 7 busy.handlers) (snapshot 7 b'.handlers)
    × ((unsubscribe id b').handlers ≡ busy.handlers)
subscribe-unsubscribe_example = subscribe-unsubscribe 1 7 6 busy busy-IsValid
