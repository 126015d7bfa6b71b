-- ===== src/Utils/Spsc/Contents.antt =====
-- The published elements, and what each access of the indices and the array does to them.
use native.Mathlib.Numerals.{add-one}
use common_system.Prelude.{
  ℕ, ◌+◌, ◌%◌, ◌^◌, ◌≤◌, ◌<◌, ◌≡◌, sym, ap, ap₂, ◌∙◌, List, [], ◌∷◌, ◌++◌, arith, length, get_or,
  set,
}
use common_system.Utils.Ring.{mod_twice, span, span-snoc, span-pop, span-set}
use common_system.Utils.Spsc.{SpscBuffer, advance}
use common_system.Utils.Spsc.Counts.{
  used, used_cases, advance_lem, used-advance_tail, used-advance_head,
}

module _ {A : Type 0} (capacity : ℕ) (default : A) where
  abbrev pub in_use : SpscBuffer A → ℕ
  in_use q = used capacity q.head q.tail

  -- The published elements, oldest first.
  abbrev pub contents : SpscBuffer A → List A
  contents q = span (capacity + 1) default q.buffer q.head (in_use q)

  pub record IsSound (q : SpscBuffer A) : Type 0 where
    pub fits : capacity + 1 < 2 ^ 64
    pub storage : length q.buffer ≡ capacity + 1
    pub head_in : q.head ≤ capacity
    pub tail_in : q.tail ≤ capacity

  -- The tail lies `in_use` places after the head.
  tail_place : (q : SpscBuffer A) → IsSound q → (q.head + in_use q) % (capacity + 1) ≡ q.tail
  tail_place q s =
      let c = used_cases capacity q.head q.tail s.head_in s.tail_in in
      omega (arith, c, mod_twice (q.head + in_use q) (capacity + 1) (omega (arith, c)))

  pub in_use-le : (q : SpscBuffer A) → IsSound q → in_use q ≤ capacity
  in_use-le q s = omega (arith, used_cases capacity q.head q.tail s.head_in s.tail_in)

  -- Publishing the slot at the tail appends its value.
  pub contents-publish :
      (q : SpscBuffer A)
      → IsSound q
      → in_use q < capacity
      → contents (record q { tail = advance capacity q.tail })
        ≡ contents q ++ get_or q.buffer q.tail default ∷ []
  contents-publish q s room =
      ap (span (capacity + 1) default q.buffer q.head) (
        (used-advance_tail capacity q.head q.tail s.head_in s.tail_in s.fits room).1
        ∙ add-one (in_use q))
      ∙ span-snoc (capacity + 1) default q.buffer q.head (in_use q)
      ∙ ap (λ i. contents q ++ get_or q.buffer i default ∷ []) (tail_place q s)

  -- A write at the tail is not seen before it is published.
  pub contents-write :
      (v : A) (q : SpscBuffer A)
      → IsSound q
      → contents (record q { buffer = set q.buffer q.tail v }) ≡ contents q
  contents-write v q s =
      ap (λ i. span (capacity + 1) default (set q.buffer i v) q.head (in_use q))
        (sym (tail_place q s))
      ∙ span-set (capacity + 1) default q.buffer v q.head (in_use q) q.head (in_use q)
          (omega (arith, s.head_in)) (omega (arith, in_use-le q s)) (omega arith) (omega arith)

  -- The oldest element is the one at the head, and releasing it leaves the others.
  pub contents-release :
      (q : SpscBuffer A)
      → IsSound q
      → 0 < in_use q
      → contents q
        ≡ get_or q.buffer q.head default ∷ contents (record q { head = advance capacity q.head })
  contents-release q s pos =
      span-pop (capacity + 1) default q.buffer q.head (in_use q) (omega (arith, s.head_in))
        (omega arith)
      ∙ ap₂ (λ h k. get_or q.buffer q.head default ∷ span (capacity + 1) default q.buffer h k)
          (sym (advance_lem capacity q.head s.head_in s.fits))
          (sym (used-advance_head capacity q.head q.tail s.head_in s.tail_in s.fits pos).1)
