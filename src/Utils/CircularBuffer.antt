-- ===== src/Utils/CircularBuffer.antt =====
-- circular_buffer.h, class CircularBuffer. The mutex makes every method one step. The `const T&`
-- and `T&&` overloads of `push` do the same to the buffer. `default` is `T{}`.
pub mod Refine
use common_system.Prelude.{
  ℕ, ◌+◌, ◌-◌, ◌%◌, ◌^◌, Bool, true, false, not, ◌&&◌, Option, none, some, List, get_or, set,
  replicate, ◌==◌, if◌then◌else◌,
}

pub record CircularBuffer (A : Type 0) : Type 0 where
  pub buffer : List A
  pub head : ℕ
  pub tail : ℕ
  pub size : ℕ

-- `(index + 1) % Capacity` over `std::size_t`.
unfoldable pub advance : ℕ → ℕ → ℕ
advance capacity index = (index + 1) % 2 ^ 64 % capacity

module _ {A : Type 0} (capacity : ℕ) (default : A) where
  unfoldable pub new_buffer : CircularBuffer A
  new_buffer = record { buffer = replicate capacity default; head = 0; tail = 0; size = 0 }

  unfoldable pub is_full : CircularBuffer A → Bool
  is_full b = b.size == capacity

  unfoldable pub is_empty : CircularBuffer A → Bool
  is_empty b = b.size == 0

  -- `--size_` runs only on a size that is not 0.
  unfoldable pub pop : CircularBuffer A → Option A × CircularBuffer A
  pop b = if b.size == 0 then (none, b) else (
    some (get_or b.buffer b.head default),
    record b { head = advance capacity b.head; size = b.size - 1 },
  )

  unfoldable pub store : A → CircularBuffer A → CircularBuffer A
  store value b = record b {
    buffer = set b.buffer b.tail value;
    tail = advance capacity b.tail;
    size = (b.size + 1) % 2 ^ 64;
  }

  unfoldable pub push : A → Bool → CircularBuffer A → Bool × CircularBuffer A
  unfolding is_full
  push value overwrite b =
      if is_full b && not overwrite
      then (false, b)
      else if is_full b
      then (true, store value (pop b).1)
      else (true, store value b)
