-- ===== src/Tests/Utils.antt =====
-- The circular buffers on concrete runs.
use common_system.Prelude.{
  ℕ, ◌+◌, ◌≤◌, ◌≡◌, ◌↔◌, refl, true, false, none, some, List, [], ◌∷◌, ◌++◌, length, arith,
}
use common_system.Utils.CircularBuffer
use common_system.Utils.CircularBuffer.{CircularBuffer, new_buffer}
use common_system.Utils.CircularBuffer.Refine.{
  BufferCall, pushed, popped, accepted, taken, run_buffer, run_queue, buffer_refines,
}
use common_system.Utils.ObjectPool.{ObjectPool, new_pool, release, clear, acquire}
use common_system.Utils.ObjectPool.Owners.{
  count, World as PoolWorld, PoolCall, take_one, hand_back, stock, run_pool, pool_sound,
  clear-release_dangling,
}
use common_system.Utils.Spsc
use common_system.Utils.Spsc.{
  SpscBuffer, World, Step, Reach, here, next, start, idle, writing, publishing, waiting, push_load,
  push_write, push_store, size, full, empty,
}
use common_system.Utils.Spsc.Contents.{contents}
use common_system.Utils.Spsc.Fifo.{spsc_fifo, spsc_counts}

abbrev script : List (BufferCall ℕ)
script =
    pushed 1 false ∷ pushed 2 false ∷ pushed 3 false ∷ pushed 4 true ∷ popped ∷ popped ∷ popped ∷ []

overwrite_drops_oldest :
    run_buffer 2 0 script (new_buffer 2 0)
    ≡ accepted true
      ∷ accepted true
      ∷ accepted false
      ∷ accepted true
      ∷ taken (some 2)
      ∷ taken (some 4)
      ∷ taken none
      ∷ []
unfolding run_buffer new_buffer CircularBuffer.push CircularBuffer.pop CircularBuffer.store
    CircularBuffer.advance
overwrite_drops_oldest = refl

buffer_refines_example : run_buffer 2 0 script (new_buffer 2 0) ≡ run_queue 2 script []
buffer_refines_example = buffer_refines 2 0 script (omega arith) (omega arith)

-- Round the end: the oldest element in the last slot, the next free slot the second.
abbrev wrapped : SpscBuffer ℕ
wrapped = record { buffer = 8 ∷ 0 ∷ 7 ∷ []; head = 2; tail = 1 }

-- After the producer's three accesses the element is in the buffer.
abbrev one_in : World ℕ
one_in = record {
  queue = record { buffer = 5 ∷ 0 ∷ []; head = 0; tail = 1 };
  producer = idle;
  consumer = waiting;
  sent = 5 ∷ [];
  received = [];
}

one_in-Reach : Reach 1 0 one_in
unfolding start Spsc.advance
one_in-Reach =
    next (next (next here (push_load 5 refl refl)) (push_write 5 0 1 refl)) (push_store 5 1 refl)

spsc_fifo_example :
    (5 ∷ [] ≡ [] ++ contents 1 0 (one_in.queue)) × (length (contents 1 0 (one_in.queue)) ≤ 1)
spsc_fifo_example = spsc_fifo 1 0 one_in (omega arith) one_in-Reach

spsc_counts_example :
    (length (one_in.sent) ≡ length (one_in.received) + Spsc.size 1 0 (one_in.queue))
    × ((Spsc.full 1 0 (one_in.queue) ≡ true)
        ↔ (length (one_in.sent) ≡ length (one_in.received) + 1))
    × ((Spsc.empty 1 0 (one_in.queue) ≡ true) ↔ (length (one_in.sent) ≡ length (one_in.received)))
spsc_counts_example = spsc_counts 1 0 one_in (omega arith) one_in-Reach

-- An allocator that gives the address after the greatest one in use.
abbrev above : List ℕ → ℕ
above [] = 1
above (x ∷ xs) = x + above xs

above-pos : (xs : List ℕ) → 1 ≤ above xs
above-pos [] = omega arith
above-pos (x ∷ xs) = omega (arith, above-pos xs)

count-above_le : (a : ℕ) (xs : List ℕ) → above xs ≤ a → count a xs ≡ 0
count-above_le a [] h = refl
count-above_le a (x ∷ xs) h = ground (arith, above-pos xs, count-above_le a xs)

abbrev pool_calls : List PoolCall
pool_calls = take_one ∷ take_one ∷ hand_back 0 ∷ stock 2 ∷ take_one ∷ []

pool_sound_example :
    (w : PoolWorld) × (run_pool above pool_calls ([], new_pool 2) ≡ some w)
    × ((a : ℕ) → count a w.1.free_list + count a w.0 ≤ 1)
pool_sound_example =
    pool_sound above (λ blocks. count-above_le (above blocks) blocks (omega arith)) pool_calls 2

abbrev used_pool : ObjectPool
used_pool = record { growth = 1; free_list = []; storage = 5 ∷ [] }

clear-release_dangling_example :
    let q : ObjectPool = release (some 5) (clear used_pool) in
    (acquire above q ≡ some (5, true, clear used_pool)) × (count 5 q.storage ≡ 0)
clear-release_dangling_example = clear-release_dangling above used_pool 5
