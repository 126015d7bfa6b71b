-- ===== src/Patterns/EventBus/Valid.antt =====
-- What holds of the bus after any calls.
pub mod Calls
use common_system.Prelude.{
  ℕ, zero, suc, ◌+◌, ◌<◌, ◌%◌, ◌^◌, Bool, true, false, ◌||◌, ◌≡◌, refl, sym, ap, subst, ◌∙◌, inl,
  inr, Option, none, some, List, [], ◌∷◌, arith, Bool-cases, All, ◌==◌, if◌then◌else◌, length,
}
use common_system.Prelude.Maps.{has}
use common_system.Prelude.Sets.{Once}
use common_system.Patterns.EventBus.{
  EventBus, Subscription, Handler, plain, filtered, new_bus, emplace, subscribe, subscribe_filtered,
  subscribe_handler, unsubscribe, erase_id, start, stop, set_error_callback, clear_error_callback,
  snapshot,
}

abbrev pub sub_ids : List (ℕ × Subscription) → List ℕ
sub_ids [] = []
sub_ids (entry ∷ handlers) = entry.1.id ∷ sub_ids handlers

abbrev pub Typed : List (ℕ × Subscription) → Type 0
Typed handlers = All (λ (entry : ℕ × Subscription). entry.1.expected_type_id ≡ entry.0) handlers

abbrev pub Below : ℕ → List (ℕ × Subscription) → Type 0
Below n handlers = All (λ (entry : ℕ × Subscription). entry.1.id < n) handlers

-- A subscription carries the type that it is filed under, and its id, which no other one has, is less
-- than the next.
pub record IsValid (b : EventBus) : Type 0 where
  pub typed : Typed b.handlers
  pub below : Below b.next_id b.handlers
  pub once : Once (sub_ids b.handlers)

Below-mono : (n m : ℕ) (hs : List (ℕ × Subscription)) → n < m → Below n hs → Below m hs
Below-mono n m [] le p = tt
Below-mono n m (entry ∷ hs) le p = (omega (arith, le, p.0), Below-mono n m hs le p.1)

pub Below-new : (n : ℕ) (hs : List (ℕ × Subscription)) → Below n hs → has n (sub_ids hs) ≡ false
unfolding has
Below-new n [] p = refl
Below-new n (entry ∷ hs) p = ground (arith, p.0, Below-new n hs p.1)

All-emplace :
    (P : ℕ × Subscription → Type 0) (slot : ℕ) (info : ℕ × Subscription)
    (hs : List (ℕ × Subscription))
    → P info
    → All P hs
    → All P (emplace slot info hs)
unfolding emplace
All-emplace P slot info [] p ps = (p, tt)
All-emplace P zero info (entry ∷ hs) p ps = (p, ps)
All-emplace P (suc slot) info (entry ∷ hs) p ps = (ps.0, All-emplace P slot info hs p ps.1)

has-emplace :
    (k slot : ℕ) (info : ℕ × Subscription) (hs : List (ℕ × Subscription))
    → has k (sub_ids (emplace slot info hs)) ≡ ((info.1.id == k) || has k (sub_ids hs))
unfolding emplace has
has-emplace k slot info [] = refl
has-emplace k zero info (entry ∷ hs) = refl
has-emplace k (suc slot) info (entry ∷ hs) = ground (arith, has-emplace k slot info hs)

Once-emplace :
    (slot : ℕ) (info : ℕ × Subscription) (hs : List (ℕ × Subscription))
    → Once (sub_ids hs)
    → has info.1.id (sub_ids hs) ≡ false
    → Once (sub_ids (emplace slot info hs))
unfolding emplace has
Once-emplace slot info [] o new = (refl, tt)
Once-emplace zero info (entry ∷ hs) o new = (new, o)
Once-emplace (suc slot) info (entry ∷ hs) o new = (
  ground (arith, o.0, new, has-emplace entry.1.id slot info hs),
  Once-emplace slot info hs o.1 (ground (arith, new)),
)

pub All-erase :
    (P : ℕ × Subscription → Type 0) (id : ℕ) (hs : List (ℕ × Subscription))
    → All P hs
    → All P (erase_id id hs)
unfolding erase_id
All-erase P id [] ps = tt
All-erase P id (entry ∷ hs) ps = elim (Bool-cases (entry.1.id == id)) [
  | inl same ↦ rw same (All-erase P id hs ps.1)
  | inr other ↦ rw other (ps.0, All-erase P id hs ps.1)
]

has-erase_id :
    (k id : ℕ) (hs : List (ℕ × Subscription))
    → has k (sub_ids hs) ≡ false
    → has k (sub_ids (erase_id id hs)) ≡ false
unfolding erase_id has
has-erase_id k id [] new = refl
has-erase_id k id (entry ∷ hs) new = ground (arith, new, has-erase_id k id hs)

pub Once-erase_id :
    (id : ℕ) (hs : List (ℕ × Subscription)) → Once (sub_ids hs) → Once (sub_ids (erase_id id hs))
unfolding erase_id
Once-erase_id id [] o = tt
Once-erase_id id (entry ∷ hs) o = elim (Bool-cases (entry.1.id == id)) [
  | inl same ↦ rw same (Once-erase_id id hs o.1)
  | inr other ↦ rw other (has-erase_id entry.1.id id hs o.0, Once-erase_id id hs o.1)
]

erase-missing :
    (id : ℕ) (hs : List (ℕ × Subscription)) → has id (sub_ids hs) ≡ false → erase_id id hs ≡ hs
unfolding erase_id has
erase-missing id [] new = refl
erase-missing id (entry ∷ hs) new = ground (arith, new, erase-missing id hs)

pub erase-emplace :
    (slot : ℕ) (info : ℕ × Subscription) (hs : List (ℕ × Subscription))
    → has info.1.id (sub_ids hs) ≡ false
    → erase_id info.1.id (emplace slot info hs) ≡ hs
unfolding erase_id emplace has
erase-emplace slot info [] new = ground arith
erase-emplace zero info (entry ∷ hs) new = ground (arith, new, erase-missing info.1.id hs)
erase-emplace (suc slot) info (entry ∷ hs) new = ground (arith, new, erase-emplace slot info hs)

pub subscribe-IsValid :
    (slot type_id : ℕ) (handler : Handler) (b : EventBus)
    → b.next_id + 1 < 2 ^ 64
    → IsValid b
    → IsValid (subscribe_handler slot type_id handler b).1
subscribe-IsValid slot type_id handler b fits v =
    let info : ℕ × Subscription =
      (type_id, record { id = b.next_id; expected_type_id = type_id; handler = handler }) in
    let next : (b.next_id + 1) % 2 ^ 64 ≡ b.next_id + 1 = omega (arith, fits) in
    let more : b.next_id < (b.next_id + 1) % 2 ^ 64 = omega (arith, next) in
    record {
      typed =
          All-emplace (λ entry. entry.1.expected_type_id ≡ entry.0) slot info b.handlers refl
            v.typed;
      below =
          All-emplace (λ entry. entry.1.id < (b.next_id + 1) % 2 ^ 64) slot info b.handlers more
            (Below-mono b.next_id ((b.next_id + 1) % 2 ^ 64) b.handlers more v.below);
      once = Once-emplace slot info b.handlers v.once (Below-new b.next_id b.handlers v.below);
    }
