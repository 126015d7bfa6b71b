-- ===== src/Patterns/EventBus/Valid/Calls.antt =====
-- What holds of the bus after any sequence of calls, and subscriptions that come and go.
use common_system.Prelude.{
  ℕ, zero, suc, ◌+◌, ◌<◌, ◌^◌, ◌≡◌, refl, ap, inl, inr, Option, List, [], ◌∷◌, ◌++◌, arith,
  Bool-cases, ◌==◌, length,
}
use common_system.Patterns.EventBus.{
  EventBus, Subscription, plain, filtered, new_bus, emplace, subscribe, subscribe_filtered,
  unsubscribe, start, stop, set_error_callback, clear_error_callback, snapshot,
}
use common_system.Patterns.EventBus.Valid.{
  IsValid, All-erase, Once-erase_id, erase-emplace, subscribe-IsValid, Below-new,
}

-- A call of a method that changes the bus.
pub data BusCall : Type 0 where
  subscribes : ℕ → ℕ → ℕ → BusCall
  subscribes_filtered : ℕ → ℕ → ℕ → ℕ → BusCall
  unsubscribes : ℕ → BusCall
  sets_callback : Option ℕ → BusCall
  clears_callback : BusCall
  starts : BusCall
  stops : BusCall

abbrev pub bus_call : BusCall → EventBus → EventBus
bus_call (subscribes slot type_id func) b = (subscribe slot type_id func b).1
bus_call (subscribes_filtered slot type_id func filter) b =
    (subscribe_filtered slot type_id func filter b).1
bus_call (unsubscribes id) b = unsubscribe id b
bus_call (sets_callback callback) b = set_error_callback callback b
bus_call clears_callback b = clear_error_callback b
bus_call starts b = start b
bus_call stops b = stop b

unfoldable pub run_bus : List BusCall → EventBus → EventBus
run_bus [] b = b
run_bus (c ∷ calls) b = run_bus calls (bus_call c b)

unsubscribe-IsValid : (id : ℕ) (b : EventBus) → IsValid b → IsValid (unsubscribe id b)
unfolding unsubscribe
unsubscribe-IsValid id b v = record {
  typed = All-erase (λ entry. entry.1.expected_type_id ≡ entry.0) id b.handlers v.typed;
  below = All-erase (λ entry. entry.1.id < b.next_id) id b.handlers v.below;
  once = Once-erase_id id b.handlers v.once;
}

unfiled-IsValid :
    (b c : EventBus) → c.handlers ≡ b.handlers → c.next_id ≡ b.next_id → IsValid b → IsValid c
unfiled-IsValid b c same next v = record {
  typed = rw same v.typed;
  below = rw next (rw same v.below);
  once = rw same v.once;
}

bus_call-IsValid :
    (c : BusCall) (b : EventBus) → b.next_id + 1 < 2 ^ 64 → IsValid b → IsValid (bus_call c b)
unfolding subscribe subscribe_filtered set_error_callback clear_error_callback start stop
bus_call-IsValid (subscribes slot type_id func) b fits v =
    subscribe-IsValid slot type_id (plain func) b fits v
bus_call-IsValid (subscribes_filtered slot type_id func filter) b fits v =
    subscribe-IsValid slot type_id (filtered func filter) b fits v
bus_call-IsValid (unsubscribes id) b fits v = unsubscribe-IsValid id b v
bus_call-IsValid (sets_callback callback) b fits v =
    unfiled-IsValid b (set_error_callback callback b) refl refl v
bus_call-IsValid clears_callback b fits v = unfiled-IsValid b (clear_error_callback b) refl refl v
bus_call-IsValid starts b fits v = unfiled-IsValid b (start b) refl refl v
bus_call-IsValid stops b fits v = unfiled-IsValid b (stop b) refl refl v

bus_call_next :
    (c : BusCall) (b : EventBus) → b.next_id + 1 < 2 ^ 64 → (bus_call c b).next_id < b.next_id + 2
unfolding subscribe subscribe_filtered unsubscribe set_error_callback clear_error_callback start
    stop
bus_call_next (subscribes slot type_id func) b fits = omega (arith, fits)
bus_call_next (subscribes_filtered slot type_id func filter) b fits = omega (arith, fits)
bus_call_next (unsubscribes id) b fits = omega arith
bus_call_next (sets_callback callback) b fits = omega arith
bus_call_next clears_callback b fits = omega arith
bus_call_next starts b fits = omega arith
bus_call_next stops b fits = omega arith

run_bus-kept :
    (calls : List BusCall) (b : EventBus)
    → b.next_id + length calls < 2 ^ 64
    → IsValid b
    → IsValid (run_bus calls b)
unfolding run_bus
run_bus-kept [] b fits v = v
run_bus-kept (c ∷ calls) b fits v =
    run_bus-kept calls (bus_call c b) (omega (arith, fits, bus_call_next c b (omega (arith, fits))))
      (bus_call-IsValid c b (omega (arith, fits)) v)

-- After any sequence of less than 2 ^ 64 - 1 calls on a new bus, every subscription carries the type
-- that it is filed under, so that publish finds no mismatch, no two have the same id, and the id that
-- comes next is greater than all of them.
pub run_bus-IsValid :
    (calls : List BusCall) → 1 + length calls < 2 ^ 64 → IsValid (run_bus calls new_bus)
unfolding new_bus
run_bus-IsValid calls fits =
    run_bus-kept calls new_bus fits (record { typed = tt; below = tt; once = tt })

-- Where a new entry stands among those of its type.
abbrev pub Placed : Subscription → List Subscription → List Subscription → Type 0
Placed info old entries =
    (before : List Subscription) × (after : List Subscription) × (entries ≡ before ++ info ∷ after)
    × (old ≡ before ++ after)

snapshot-emplace :
    (slot type_id : ℕ) (info : Subscription) (hs : List (ℕ × Subscription))
    → Placed info (snapshot type_id hs) (snapshot type_id (emplace slot (type_id, info) hs))
unfolding snapshot emplace
snapshot-emplace slot type_id info [] = ([], [], ground arith, refl)
snapshot-emplace zero type_id info (entry ∷ hs) =
    ([], snapshot type_id (entry ∷ hs), ground arith, refl)
snapshot-emplace (suc slot) type_id info (entry ∷ hs) =
    let (before, after, new, old) = snapshot-emplace slot type_id info hs in
    elim (Bool-cases (entry.0 == type_id)) [
      | inl same ↦
          rw same (entry.1 ∷ before, after, ap (λ s. entry.1 ∷ s) new, ap (λ s. entry.1 ∷ s) old)
      | inr other ↦ rw other (before, after, new, old)
    ]

-- subscribe on a valid bus answers an id under which the handlers of the type have one more entry,
-- somewhere among the old ones in their order; unsubscribe of this id gives back the table.
pub subscribe-unsubscribe :
    (slot type_id func : ℕ) (b : EventBus)
    → IsValid b
    → let (id, b') = subscribe slot type_id func b in
      let info : Subscription = record {
        id = id;
        expected_type_id = type_id;
        handler = plain func;
      } in
      Placed info (snapshot type_id b.handlers) (snapshot type_id b'.handlers)
      × ((unsubscribe id b').handlers ≡ b.handlers)
unfolding subscribe unsubscribe
subscribe-unsubscribe slot type_id func b v =
    let info : Subscription = record {
      id = b.next_id;
      expected_type_id = type_id;
      handler = plain func;
    } in
    (
      snapshot-emplace slot type_id info b.handlers,
      erase-emplace slot (type_id, info) b.handlers (Below-new b.next_id b.handlers v.below),
    )
