-- ===== src/Utils/Spsc.antt =====
-- circular_buffer.h, class SPSCCircularBuffer: no mutex, one producer and one consumer thread.
-- An atomic access is one step, and the steps of the two threads interleave in any order. The
-- `const T&` and `T&&` overloads of `push` do the same to the buffer.
pub mod Counts
pub mod Contents
pub mod Access
pub mod Fifo
use common_system.Prelude.{
  ℕ, ◌+◌, ◌-◌, ◌%◌, ◌^◌, ◌≡◌, Bool, true, false, Option, none, some, List, [], ◌∷◌, ◌++◌, get_or,
  set, replicate, leb, ◌==◌, if◌then◌else◌,
}

pub record SpscBuffer (A : Type 0) : Type 0 where
  pub buffer : List A
  pub head : ℕ
  pub tail : ℕ

-- `(index + 1) % (Capacity + 1)` over `std::size_t`.
unfoldable pub advance : ℕ → ℕ → ℕ
advance capacity index = (index + 1) % 2 ^ 64 % (capacity + 1)

module _ {A : Type 0} (capacity : ℕ) (default : A) where
  unfoldable pub new_spsc : SpscBuffer A
  new_spsc = record { buffer = replicate (capacity + 1) default; head = 0; tail = 0 }

  unfoldable pub push : A → SpscBuffer A → Bool × SpscBuffer A
  push value q =
      let next_tail = advance capacity q.tail in
      if next_tail == q.head
      then (false, q)
      else (true, record q { buffer = set q.buffer q.tail value; tail = next_tail })

  unfoldable pub pop : SpscBuffer A → Option A × SpscBuffer A
  pop q =
      if q.head == q.tail
      then (none, q)
      else (some (get_or q.buffer q.head default), record q { head = advance capacity q.head })

  unfoldable pub empty : SpscBuffer A → Bool
  empty q = q.head == q.tail

  unfoldable pub full : SpscBuffer A → Bool
  full q = advance capacity q.tail == q.head

  unfoldable pub size : SpscBuffer A → ℕ
  size q = if leb q.head q.tail then q.tail - q.head else capacity + 1 - q.head + q.tail

-- Where a thread stands inside `push` or `pop`, with the values that it has loaded.
pub data Producer (A : Type 0) : Type 0 where
  idle : Producer A
  writing : A → ℕ → ℕ → Producer A
  publishing : A → ℕ → Producer A

pub data Consumer (A : Type 0) : Type 0 where
  waiting : Consumer A
  reading : ℕ → Consumer A
  releasing : A → ℕ → Consumer A

-- `sent` and `received` record the values of the calls that have returned true, or a value.
pub record World (A : Type 0) : Type 0 where
  pub queue : SpscBuffer A
  pub producer : Producer A
  pub consumer : Consumer A
  pub sent : List A
  pub received : List A

module _ {A : Type 0} (capacity : ℕ) (default : A) where
  -- One atomic access of one thread. A `push` that finds the buffer full, or a `pop` that finds it
  -- empty, changes nothing.
  pub data Step (w : World A) : World A → Type 0 where
    push_load :
        (v : A)
        → w.producer ≡ idle
        → (advance capacity w.queue.tail == w.queue.head) ≡ false
        → Step w (record w { producer = writing v w.queue.tail (advance capacity w.queue.tail) })
    push_write :
        (v : A) (t n : ℕ)
        → w.producer ≡ writing v t n
        → Step w (record w {
          queue = record (w.queue) { buffer = set w.queue.buffer t v };
          producer = publishing v n;
        })
    push_store :
        (v : A) (n : ℕ)
        → w.producer ≡ publishing v n
        → Step w (record w {
          queue = record (w.queue) { tail = n };
          producer = idle;
          sent = w.sent ++ v ∷ [];
        })
    pop_load :
        w.consumer ≡ waiting
        → (w.queue.head == w.queue.tail) ≡ false
        → Step w (record w { consumer = reading w.queue.head })
    pop_read :
        (h : ℕ)
        → w.consumer ≡ reading h
        → Step w (record w { consumer = releasing (get_or w.queue.buffer h default) h })
    pop_store :
        (v : A) (h : ℕ)
        → w.consumer ≡ releasing v h
        → Step w (record w {
          queue = record (w.queue) { head = advance capacity h };
          consumer = waiting;
          received = w.received ++ v ∷ [];
        })

  unfoldable pub start : World A
  unfolding new_spsc
  start = record {
    queue = new_spsc capacity default;
    producer = idle;
    consumer = waiting;
    sent = [];
    received = [];
  }

  pub data Reach : World A → Type 0 where
    here : Reach start
    next : {w u : World A} → Reach w → Step w u → Reach u
