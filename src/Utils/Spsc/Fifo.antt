-- ===== src/Utils/Spsc/Fifo.antt =====
-- First in, first out, under every interleaving of the two threads.
use common_system.Prelude.{
  ℕ, ◌+◌, ◌^◌, ◌≤◌, ◌<◌, ◌≡◌, ◌∙◌, ◌↔◌, refl, sym, subst, ap, inl, inr, true, Bool-cases, some, [],
  ◌∷◌, ◌++◌, arith, length, length-append, length-replicate, get_or, ◌==◌,
}
use common_system.Utils.Ring.{length-span}
use common_system.Utils.Spsc.{
  size, full, empty, push, pop, advance, idle, waiting, World, Step, push_load, push_write,
  push_store, pop_load, pop_read, pop_store, start, Reach, here, next,
}
use common_system.Utils.Spsc.Access.{
  Inv, ProducerOk, ConsumerOk, push_write-Inv, push_store-Inv, pop_store-Inv,
}
use common_system.Utils.Spsc.Contents.{in_use, contents, in_use-le}
use common_system.Utils.Spsc.Counts.{used, used_cases, advance_cases, spsc_queries}

module _ {A : Type 0} (capacity : ℕ) (default : A) where
  -- Every step keeps the invariant.
  Step-Inv :
      {w u : World A} → Step capacity default w u → Inv capacity default w → Inv capacity default u
  Step-Inv {w} (push_load v p free) i = record {
    sound = i.sound;
    fifo = i.fifo;
    producer_ok = (
      refl,
      refl,
      ground (
        arith,
        advance_cases capacity w.queue.tail i.sound.tail_in i.sound.fits,
        used_cases capacity w.queue.head w.queue.tail i.sound.head_in i.sound.tail_in,
      ),
    );
    consumer_ok = i.consumer_ok;
  }
  Step-Inv {w} (push_write v t n p) i =
      let (et, en, room) = subst (ProducerOk capacity default w.queue) p i.producer_ok in
      rw et (push_write-Inv capacity default v n w en room i)
  Step-Inv {w} (push_store v n p) i =
      let (ev, en, room) = subst (ProducerOk capacity default w.queue) p i.producer_ok in
      rw en (push_store-Inv capacity default v w ev room i)
  Step-Inv {w} (pop_load p some_) i = record {
    sound = i.sound;
    fifo = i.fifo;
    producer_ok = i.producer_ok;
    consumer_ok = (
      refl,
      ground (arith, used_cases capacity w.queue.head w.queue.tail i.sound.head_in i.sound.tail_in),
    );
  }
  Step-Inv {w} (pop_read h p) i =
      let (eh, pos) = subst (ConsumerOk capacity default w.queue) p i.consumer_ok in
      record {
        sound = i.sound;
        fifo = i.fifo;
        producer_ok = i.producer_ok;
        consumer_ok = (eh, pos, ap (λ k. get_or w.queue.buffer k default) eh);
      }
  Step-Inv {w} (pop_store v h p) i =
      let (eh, pos, ev) = subst (ConsumerOk capacity default w.queue) p i.consumer_ok in
      rw eh (pop_store-Inv capacity default v w ev pos i)

  start-Inv : capacity + 1 < 2 ^ 64 → Inv capacity default (start capacity default)
  unfolding start
  start-Inv fit =
      let none_used : used capacity 0 0 ≡ 0 =
        omega (arith, used_cases capacity 0 0 (omega arith) (omega arith)) in
      record {
        sound = record {
          fits = fit;
          storage = length-replicate (capacity + 1) default;
          head_in = omega arith;
          tail_in = omega arith;
        };
        fifo = rw none_used;
        producer_ok = tt;
        consumer_ok = tt;
      }

  Reach-Inv :
      {w : World A} → capacity + 1 < 2 ^ 64 → Reach capacity default w → Inv capacity default w
  Reach-Inv fit here = start-Inv fit
  Reach-Inv fit (next r st) = Step-Inv st (Reach-Inv fit r)

  -- However the atomic accesses of the producer and of the consumer interleave, what has been
  -- pushed is what has been popped followed by what is in the buffer, in this order: nothing is
  -- lost, doubled, overwritten or reordered, and at most `capacity` elements are in the buffer.
  pub spsc_fifo :
      (w : World A)
      → capacity + 1 < 2 ^ 64
      → Reach capacity default w
      → (w.sent ≡ w.received ++ contents capacity default w.queue)
        × (length (contents capacity default w.queue) ≤ capacity)
  spsc_fifo w fit r =
      let i = Reach-Inv fit r in
      (
        i.fifo,
        omega (
          arith,
          length-span (capacity + 1) default w.queue.buffer w.queue.head
              (in_use capacity default w.queue),
          in_use-le capacity default w.queue i.sound,
        ),
      )

  -- However the accesses interleave, `size` read at one instant is the number of the elements that
  -- have been pushed and not popped, `full` says that it is the capacity, and `empty` that it is 0.
  pub spsc_counts :
      (w : World A)
      → capacity + 1 < 2 ^ 64
      → Reach capacity default w
      → (length w.sent ≡ length w.received + size capacity default w.queue)
        × ((full capacity default w.queue ≡ true) ↔ (length w.sent ≡ length w.received + capacity))
        × ((empty capacity default w.queue ≡ true) ↔ (length w.sent ≡ length w.received))
  spsc_counts w fit r =
      let i = Reach-Inv fit r in
      let queries = spsc_queries capacity default w.queue i.sound.head_in i.sound.tail_in fit in
      let counted : length w.sent ≡ length w.received + in_use capacity default w.queue =
        ap length i.fifo
        ∙ length-append w.received (contents capacity default w.queue)
        ∙ ap (λ k. length w.received + k)
            (length-span (capacity + 1) default w.queue.buffer w.queue.head
              (in_use capacity default w.queue)) in
      (
        counted ∙ ap (λ k. length w.received + k) (sym queries.0),
        (λ f. omega (arith, counted, queries.1.0 f), λ e. queries.1.1 (omega (arith, counted, e))),
        (λ f. omega (arith, counted, queries.2.0 f), λ e. queries.2.1 (omega (arith, counted, e))),
      )

  -- A call of `push` or `pop` that no access of the other thread interrupts is a run of steps: the
  -- world reaches the buffer that the method leaves, with its effect recorded.
  pub calls-Reach :
      (v : A) (w : World A)
      → Reach capacity default w
      → (w.producer ≡ idle
          → (push capacity default v w.queue).0 ≡ true
          → Reach capacity default (record w {
            queue = (push capacity default v w.queue).1;
            producer = idle;
            sent = w.sent ++ v ∷ [];
          }))
        × ((x : A)
            → w.consumer ≡ waiting
            → (pop capacity default w.queue).0 ≡ some x
            → Reach capacity default (record w {
              queue = (pop capacity default w.queue).1;
              consumer = waiting;
              received = w.received ++ x ∷ [];
            }))
  unfolding push pop
  calls-Reach v w r = (pushes, pops)
    where
      next_tail : ℕ
      next_tail = advance capacity w.queue.tail

      pushes :
          w.producer ≡ idle
          → (push capacity default v w.queue).0 ≡ true
          → Reach capacity default (record w {
            queue = (push capacity default v w.queue).1;
            producer = idle;
            sent = w.sent ++ v ∷ [];
          })
      pushes free ok = elim (Bool-cases (next_tail == w.queue.head)) [
        | inl full ↦ absurd (ground (arith, full))
        | inr room ↦ rw room (
            next (next (next r (push_load v free room)) (push_write v w.queue.tail next_tail refl))
              (push_store v next_tail refl))
      ]

      pops :
          (x : A)
          → w.consumer ≡ waiting
          → (pop capacity default w.queue).0 ≡ some x
          → Reach capacity default (record w {
            queue = (pop capacity default w.queue).1;
            consumer = waiting;
            received = w.received ++ x ∷ [];
          })
      pops x free ok = elim (Bool-cases (w.queue.head == w.queue.tail)) [
        | inl none_left ↦ absurd (ground (arith, none_left))
        | inr one ↦
            let got : get_or w.queue.buffer w.queue.head default ≡ x = ground (arith, one) in
            rw (one, ← got)
              (next (next (next r (pop_load free one)) (pop_read w.queue.head refl))
                (pop_store (get_or w.queue.buffer w.queue.head default) w.queue.head refl))
      ]
