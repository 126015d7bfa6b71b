-- ===== src/Utils/Spsc/Access.antt =====
-- The invariant of the two threads, and the accesses that change the buffer.
use common_system.Prelude.{
  ℕ, ◌<◌, ◌≡◌, ◌≢◌, sym, ap, ◌∙◌, List, [], ◌∷◌, ◌++◌, append_assoc, arith, length-set, get_or, set,
  get_or-set_self, get_or-set_ne,
}
use common_system.Utils.Spsc.{
  SpscBuffer, advance, Producer, idle, writing, publishing, Consumer, waiting, reading, releasing,
  World,
}
use common_system.Utils.Spsc.Contents.{
  in_use, contents, IsSound, contents-publish, contents-write, contents-release,
}
use common_system.Utils.Spsc.Counts.{used_cases, used-advance_tail, used-advance_head}

module _ {A : Type 0} (capacity : ℕ) (default : A) where
  -- Inside `push` there is room, and a written value stands at the tail until it is published.
  abbrev pub ProducerOk : SpscBuffer A → Producer A → Type 0
  ProducerOk q idle = Unit
  ProducerOk q (writing v t n) =
      (t ≡ q.tail) × (n ≡ advance capacity q.tail) × (in_use capacity default q < capacity)
  ProducerOk q (publishing v n) =
      (get_or q.buffer q.tail default ≡ v)
      × (n ≡ advance capacity q.tail)
      × (in_use capacity default q < capacity)

  -- Inside `pop` there is an element, and the value that was read is the oldest.
  abbrev pub ConsumerOk : SpscBuffer A → Consumer A → Type 0
  ConsumerOk q waiting = Unit
  ConsumerOk q (reading h) = (h ≡ q.head) × (0 < in_use capacity default q)
  ConsumerOk q (releasing v h) =
      (h ≡ q.head) × (0 < in_use capacity default q) × (v ≡ get_or q.buffer q.head default)

  pub record Inv (w : World A) : Type 0 where
    pub sound : IsSound capacity default w.queue
    pub fifo : w.sent ≡ w.received ++ contents capacity default w.queue
    pub producer_ok : ProducerOk w.queue w.producer
    pub consumer_ok : ConsumerOk w.queue w.consumer

  -- What one thread relies on is kept by the accesses of the other.
  ConsumerOk-write :
      (v : A) (q : SpscBuffer A) (c : Consumer A)
      → IsSound capacity default q
      → ConsumerOk q c
      → ConsumerOk (record q { buffer = set q.buffer q.tail v }) c
  ConsumerOk-write v q waiting s k = tt
  ConsumerOk-write v q (reading h) s k = k
  ConsumerOk-write v q (releasing x h) s (eh, pos, ex) =
      (eh, pos, ex ∙ sym (get_or-set_ne q.buffer v default apart))
    where
      apart : q.tail ≢ q.head
      apart = omega (arith, used_cases capacity q.head q.tail s.head_in s.tail_in)

  ConsumerOk-publish :
      (q : SpscBuffer A) (c : Consumer A)
      → IsSound capacity default q
      → in_use capacity default q < capacity
      → ConsumerOk q c
      → ConsumerOk (record q { tail = advance capacity q.tail }) c
  ConsumerOk-publish q waiting s room k = tt
  ConsumerOk-publish q (reading h) s room (eh, pos) =
      let u = used-advance_tail capacity q.head q.tail s.head_in s.tail_in s.fits room in
      (eh, omega (arith, u))
  ConsumerOk-publish q (releasing x h) s room (eh, pos, ex) =
      let u = used-advance_tail capacity q.head q.tail s.head_in s.tail_in s.fits room in
      (eh, omega (arith, u), ex)

  ProducerOk-release :
      (q : SpscBuffer A) (p : Producer A)
      → IsSound capacity default q
      → 0 < in_use capacity default q
      → ProducerOk q p
      → ProducerOk (record q { head = advance capacity q.head }) p
  ProducerOk-release q idle s pos k = tt
  ProducerOk-release q (writing v t n) s pos (et, en, room) =
      let u = used-advance_head capacity q.head q.tail s.head_in s.tail_in s.fits pos in
      (et, en, omega (arith, u))
  ProducerOk-release q (publishing v n) s pos (ev, en, room) =
      let u = used-advance_head capacity q.head q.tail s.head_in s.tail_in s.fits pos in
      (ev, en, omega (arith, u))

  pub push_write-Inv :
      (v : A) (n : ℕ) (w : World A)
      → n ≡ advance capacity w.queue.tail
      → in_use capacity default w.queue < capacity
      → Inv w
      → Inv (record w {
        queue = record (w.queue) { buffer = set w.queue.buffer w.queue.tail v };
        producer = publishing v n;
      })
  push_write-Inv v n w en room i = record {
    sound = record {
      fits = i.sound.fits;
      storage = length-set w.queue.buffer w.queue.tail v ∙ i.sound.storage;
      head_in = i.sound.head_in;
      tail_in = i.sound.tail_in;
    };
    fifo =
        i.fifo
        ∙ ap (λ l. w.received ++ l) (sym (contents-write capacity default v w.queue i.sound));
    producer_ok = (
      get_or-set_self w.queue.buffer w.queue.tail v default
          (omega (arith, i.sound.storage, i.sound.tail_in)),
      en,
      room,
    );
    consumer_ok = ConsumerOk-write v w.queue w.consumer i.sound i.consumer_ok;
  }

  pub push_store-Inv :
      (v : A) (w : World A)
      → get_or w.queue.buffer w.queue.tail default ≡ v
      → in_use capacity default w.queue < capacity
      → Inv w
      → Inv (record w {
        queue = record (w.queue) { tail = advance capacity w.queue.tail };
        producer = idle;
        sent = w.sent ++ v ∷ [];
      })
  push_store-Inv v w ev room i =
      let q : SpscBuffer A = w.queue in
      let s = i.sound in
      record {
        sound = record {
          fits = s.fits;
          storage = s.storage;
          head_in = s.head_in;
          tail_in = (used-advance_tail capacity q.head q.tail s.head_in s.tail_in s.fits room).0;
        };
        fifo =
            ap (λ l. l ++ v ∷ []) i.fifo
            ∙ append_assoc w.received (contents capacity default q) (v ∷ [])
            ∙ ap (λ l. w.received ++ l)
                (ap (λ x. contents capacity default q ++ x ∷ []) (sym ev)
                  ∙ sym (contents-publish capacity default q s room));
        producer_ok = tt;
        consumer_ok = ConsumerOk-publish q w.consumer s room i.consumer_ok;
      }

  pub pop_store-Inv :
      (v : A) (w : World A)
      → v ≡ get_or w.queue.buffer w.queue.head default
      → 0 < in_use capacity default w.queue
      → Inv w
      → Inv (record w {
        queue = record (w.queue) { head = advance capacity w.queue.head };
        consumer = waiting;
        received = w.received ++ v ∷ [];
      })
  pop_store-Inv v w ev pos i =
      let q : SpscBuffer A = w.queue in
      let s = i.sound in
      let rest : List A = contents capacity default (record q { head = advance capacity q.head }) in
      record {
        sound = record {
          fits = s.fits;
          storage = s.storage;
          head_in = (used-advance_head capacity q.head q.tail s.head_in s.tail_in s.fits pos).0;
          tail_in = s.tail_in;
        };
        fifo =
            i.fifo
            ∙ ap (λ l. w.received ++ l)
                (contents-release capacity default q s pos ∙ ap (λ x. x ∷ rest) (sym ev))
            ∙ sym (append_assoc w.received (v ∷ []) rest);
        producer_ok = ProducerOk-release q w.producer s pos i.producer_ok;
        consumer_ok = tt;
      }
