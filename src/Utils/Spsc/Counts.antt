-- ===== src/Utils/Spsc/Counts.antt =====
-- How many elements lie between the two indices, and how the indices move.
use native.Mathlib.Nat.{mod-eq_of_lt}
use common_system.Prelude.{ℕ, ◌+◌, ◌-◌, ◌%◌, ◌^◌, ◌≤◌, ◌<◌, ◌≡◌, ap, ◌⊎◌, ◌↔◌, true, arith}
use common_system.Utils.Ring.{mod_twice}
use common_system.Utils.Spsc.{SpscBuffer, advance, size, full, empty}

pub advance_lem :
    (capacity i : ℕ)
    → i ≤ capacity
    → capacity + 1 < 2 ^ 64
    → advance capacity i ≡ (i + 1) % (capacity + 1)
unfolding advance
advance_lem capacity i h k =
    ap (λ x. x % (capacity + 1)) (mod-eq_of_lt {n = i + 1} {m = 2 ^ 64} (omega arith))

-- The number of elements from `h` up to `t`, going round.
abbrev pub used : ℕ → ℕ → ℕ → ℕ
used capacity h t = (t + (capacity + 1) - h) % (capacity + 1)

pub advance_cases :
    (capacity i : ℕ)
    → i ≤ capacity
    → capacity + 1 < 2 ^ 64
    → (i < capacity) × (advance capacity i ≡ i + 1) ⊎ (i ≡ capacity) × (advance capacity i ≡ 0)
advance_cases capacity i le fit =
    omega (arith, advance_lem capacity i le fit, mod_twice (i + 1) (capacity + 1) (omega arith))

pub used_cases :
    (capacity h t : ℕ)
    → h ≤ capacity
    → t ≤ capacity
    → (h ≤ t) × (used capacity h t ≡ t - h) ⊎ (t < h) × (used capacity h t ≡ t + (capacity + 1) - h)
used_cases capacity h t hh ht =
    omega (arith, mod_twice (t + (capacity + 1) - h) (capacity + 1) (omega arith))

pub used-advance_tail :
    (capacity h t : ℕ)
    → h ≤ capacity
    → t ≤ capacity
    → capacity + 1 < 2 ^ 64
    → used capacity h t < capacity
    → (advance capacity t ≤ capacity)
      × (used capacity h (advance capacity t) ≡ used capacity h t + 1)
used-advance_tail capacity h t hh ht fit room =
    let a = advance_cases capacity t ht fit in
    omega (
      arith,
      a,
      used_cases capacity h t hh ht,
      used_cases capacity h (advance capacity t) hh (omega (arith, a)),
    )

pub used-advance_head :
    (capacity h t : ℕ)
    → h ≤ capacity
    → t ≤ capacity
    → capacity + 1 < 2 ^ 64
    → 0 < used capacity h t
    → (advance capacity h ≤ capacity)
      × (used capacity (advance capacity h) t ≡ used capacity h t - 1)
used-advance_head capacity h t hh ht fit some_ =
    let a = advance_cases capacity h hh fit in
    omega (
      arith,
      a,
      used_cases capacity h t hh ht,
      used_cases capacity (advance capacity h) t (omega (arith, a)) ht,
    )

-- The three queries tell the number of elements in the buffer: `size` is it, `full` compares it with
-- the capacity and `empty` with zero.
pub spsc_queries :
    {A : Type 0} (capacity : ℕ) (default : A) (q : SpscBuffer A)
    → q.head ≤ capacity
    → q.tail ≤ capacity
    → capacity + 1 < 2 ^ 64
    → (size capacity default q ≡ used capacity q.head q.tail)
      × ((full capacity default q ≡ true) ↔ (used capacity q.head q.tail ≡ capacity))
      × ((empty capacity default q ≡ true) ↔ (used capacity q.head q.tail ≡ 0))
unfolding size full empty
spsc_queries capacity default q hh ht fit =
    ground (arith, advance_cases capacity q.tail ht fit, used_cases capacity q.head q.tail hh ht)
