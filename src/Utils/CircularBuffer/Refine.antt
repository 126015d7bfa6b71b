-- ===== src/Utils/CircularBuffer/Refine.antt =====
-- The buffer is a bounded queue that can make room for a new element by dropping its oldest.
use native.Mathlib.Decide.{ℕ_discrete}
use native.Mathlib.Nat.{mod-eq_of_lt}
use common_system.Prelude.{
  ℕ, suc, ◌+◌, ◌-◌, ◌%◌, ◌≤◌, ◌<◌, ◌^◌, ◌≡◌, ◌≢◌, refl, ◌∙◌, ap, ap₂, Bool, true, false, Option,
  none, some, List, [], ◌∷◌, ◌++◌, arith, length, length-set, length-replicate, set, ◌==◌,
  if◌then◌else◌,
}
use common_system.Utils.Ring.{mod_twice, span, length-span, span-push, span-pop}
use common_system.Utils.CircularBuffer.{CircularBuffer, new_buffer, advance, pop, store, push}

-- One call of a buffer, and its reply.
pub data BufferCall (A : Type 0) : Type 0 where
  pushed : A → Bool → BufferCall A
  popped : BufferCall A

pub data BufferReply (A : Type 0) : Type 0 where
  accepted : Bool → BufferReply A
  taken : Option A → BufferReply A

-- The specification: the elements, oldest first.
pub queue_pop : {A : Type 0} → List A → Option A × List A
queue_pop [] = (none, [])
queue_pop (x ∷ q) = (some x, q)

module _ {A : Type 0} (capacity : ℕ) where
  pub queue_push : A → Bool → List A → Bool × List A
  unfolding queue_pop
  queue_push x overwrite q =
      if length q == capacity
      then if overwrite then (true, (queue_pop q).1 ++ x ∷ []) else (false, q)
      else (true, q ++ x ∷ [])

  pub run_queue : List (BufferCall A) → List A → List (BufferReply A)
  run_queue [] q = []
  run_queue (pushed x o ∷ calls) q =
      let (ok, q') = queue_push x o q in accepted ok ∷ run_queue calls q'
  run_queue (popped ∷ calls) q = let (v, q') = queue_pop q in taken v ∷ run_queue calls q'

advance_lem :
    (capacity i : ℕ) → i < capacity → capacity < 2 ^ 64 → advance capacity i ≡ (i + 1) % capacity
unfolding advance
advance_lem capacity i h k =
    ap (λ x. x % capacity) (mod-eq_of_lt {n = i + 1} {m = 2 ^ 64} (omega arith))

module _ {A : Type 0} (capacity : ℕ) (default : A) where
  unfoldable pub run_buffer : List (BufferCall A) → CircularBuffer A → List (BufferReply A)
  run_buffer [] b = []
  run_buffer (pushed x o ∷ calls) b =
      let (ok, b') = push capacity default x o b in accepted ok ∷ run_buffer calls b'
  run_buffer (popped ∷ calls) b =
      let (v, b') = pop capacity default b in taken v ∷ run_buffer calls b'

  pub record IsValid (b : CircularBuffer A) : Type 0 where
    pub positive : 0 < capacity
    pub fits : capacity < 2 ^ 64
    pub storage : length b.buffer ≡ capacity
    pub head_in : b.head < capacity
    pub size_in : b.size ≤ capacity
    pub tail_at : b.tail ≡ (b.head + b.size) % capacity

  abbrev pub contents : CircularBuffer A → List A
  contents b = span capacity default b.buffer b.head b.size

  pop-IsValid : (b : CircularBuffer A) → IsValid b → IsValid (pop capacity default b).1
  unfolding pop
  pop-IsValid b v = ground (
    arith,
    advance_lem capacity b.head v.head_in v.fits,
    mod_twice (b.head + 1) capacity (omega arith),
    mod_twice (b.head + b.size) capacity (omega arith),
    mod_twice ((b.head + 1) % capacity + (b.size - 1)) capacity
        (omega (arith, mod_twice (b.head + 1) capacity (omega arith))),
  )

  pop_refines :
      (b : CircularBuffer A)
      → IsValid b
      → let (x, b') = pop capacity default b in (x, contents b') ≡ queue_pop (contents b)
  unfolding pop queue_pop
  pop_refines b v = ground (
    arith,
    advance_lem capacity b.head v.head_in v.fits,
    span-pop capacity default b.buffer b.head b.size v.head_in,
  )

  store-IsValid :
      (x : A) (b : CircularBuffer A)
      → IsValid b
      → b.size < capacity
      → IsValid (store capacity default x b)
  unfolding store
  store-IsValid x b v room =
      let tw = mod_twice (b.head + b.size) capacity (omega arith) in
      ground (
        arith,
        length-set b.buffer b.tail x,
        tw,
        advance_lem capacity b.tail (omega (arith, tw)) v.fits,
        mod_twice (b.tail + 1) capacity (omega (arith, tw)),
        mod_twice (b.head + (b.size + 1)) capacity (omega arith),
      )

  store_refines :
      (x : A) (b : CircularBuffer A)
      → IsValid b
      → b.size < capacity
      → contents (store capacity default x b) ≡ contents b ++ x ∷ []
  unfolding store
  store_refines x b v room =
      let grown : (b.size + 1) % 2 ^ 64 ≡ suc b.size = omega arith in
      ap₂ (λ i k. span capacity default (set b.buffer i x) b.head k) v.tail_at grown
      ∙ span-push capacity default b.buffer x b.head b.size v.storage v.head_in room

  size-pop : (b : CircularBuffer A) → b.size ≢ 0 → (pop capacity default b).1.size ≡ b.size - 1
  unfolding pop
  size-pop b ne = ground arith

  -- `push` keeps the invariant.
  pub push-IsValid :
      (x : A) (o : Bool) (b : CircularBuffer A)
      → IsValid b
      → IsValid (push capacity default x o b).1
  unfolding push
  push-IsValid x o b v = elim (ℕ_discrete b.size capacity) [
    | yes full ↦
        ground (arith, size-pop b, store-IsValid x (pop capacity default b).1 (pop-IsValid b v))
    | no room ↦ ground (arith, store-IsValid x b v)
  ]

  push_refines :
      (x : A) (o : Bool) (b : CircularBuffer A)
      → IsValid b
      → let (ok, b') = push capacity default x o b in
        (ok, contents b') ≡ queue_push capacity x o (contents b)
  unfolding push queue_push
  push_refines x o b v =
      let len = length-span capacity default b.buffer b.head b.size in
      elim (ℕ_discrete b.size capacity) [
        | yes full ↦ ground (
          arith,
          len,
          size-pop b,
          ap (λ r. r.1) (pop_refines b v),
          store_refines x (pop capacity default b).1 (pop-IsValid b v),
        )
        | no room ↦ ground (arith, len, store_refines x b v)
      ]

  run_refines_from :
      (calls : List (BufferCall A)) (b : CircularBuffer A)
      → IsValid b
      → run_buffer calls b ≡ run_queue capacity calls (contents b)
  unfolding run_buffer run_queue
  run_refines_from [] b v = refl
  run_refines_from (pushed x o ∷ calls) b v = rw (
    run_refines_from calls (push capacity default x o b).1 (push-IsValid x o b v),
    ← push_refines x o b v,
  )
  run_refines_from (popped ∷ calls) b v =
      rw (run_refines_from calls (pop capacity default b).1 (pop-IsValid b v), ← pop_refines b v)

  new_buffer-IsValid : 0 < capacity → capacity < 2 ^ 64 → IsValid (new_buffer capacity default)
  unfolding new_buffer
  new_buffer-IsValid pos fit =
      let wrap : 0 % capacity ≡ 0 = mod-eq_of_lt pos in
      ground (arith, length-replicate capacity default, wrap)

  -- A new buffer of positive capacity answers every sequence of pushes and pops as the queue of at
  -- most `capacity` elements does: a full one refuses a push, or drops its oldest element if it may
  -- overwrite.
  pub buffer_refines :
      (calls : List (BufferCall A))
      → 0 < capacity
      → capacity < 2 ^ 64
      → run_buffer calls (new_buffer capacity default) ≡ run_queue capacity calls []
  buffer_refines calls pos fit =
      run_refines_from calls (new_buffer capacity default) (new_buffer-IsValid pos fit)
      ∙ (unfold new_buffer in refl)
