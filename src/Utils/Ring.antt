-- ===== src/Utils/Ring.antt =====
-- Arrays read round their end: what the two circular buffers share.
use native.Mathlib.Nat.{mod-eq_of_lt, mod-eq-sub-mod, add-zero}
use native.Mathlib.Decide.{dec_lt}
use common_system.Prelude.{
  ℕ, zero, suc, ◌+◌, ◌-◌, ◌%◌, ◌≤◌, ◌<◌, ◌≡◌, ◌≢◌, refl, sym, ap, ap₂, ◌∙◌, ◌⊎◌, inl, inr, List, [],
  ◌∷◌, ◌++◌, arith, length, get_or, set, get_or-set_self, get_or-set_ne,
}

-- An index less than twice the size wraps once or not at all.
pub mod_twice : (x n : ℕ) → x < n + n → (x < n) × (x % n ≡ x) ⊎ (n ≤ x) × (x % n ≡ x - n)
mod_twice x n h = elim (dec_lt x n) [
  | yes p ↦ inl (p, mod-eq_of_lt p)
  | no p ↦ inr (
    omega arith,
    mod-eq-sub-mod {n = x} {m = n} (omega arith) ∙ mod-eq_of_lt {n = x - n} {m = n} (omega arith),
  )
]

module _ {A : Type 0} (n : ℕ) (default : A) where
  -- The `k` elements from index `h` on. `h` itself may lie past the end.
  abbrev pub span : List A → ℕ → ℕ → List A
  span buf h zero = []
  span buf h (suc k) = get_or buf (h % n) default ∷ span buf (h + 1) k

  pub length-span : (buf : List A) (h k : ℕ) → length (span buf h k) ≡ k
  length-span buf h zero = refl
  length-span buf h (suc k) = ap suc (length-span buf (h + 1) k)

  pub span-snoc :
      (buf : List A) (h k : ℕ)
      → span buf h (suc k) ≡ span buf h k ++ get_or buf ((h + k) % n) default ∷ []
  span-snoc buf h zero = rw add-zero
  span-snoc buf h (suc k) =
      let e : h + 1 + k ≡ h + suc k = omega arith in
      ap (λ l. get_or buf (h % n) default ∷ l)
        (span-snoc buf (h + 1) k
          ∙ ap (λ i. span buf (h + 1) k ++ get_or buf (i % n) default ∷ []) e)

  -- Starting one whole turn later reads the same.
  pub span_turn : (buf : List A) (h k : ℕ) → n ≤ h → span buf (h - n) k ≡ span buf h k
  span_turn buf h zero le = refl
  span_turn buf h (suc k) le =
      let e : h - n + 1 ≡ h + 1 - n = omega arith in
      ap₂ (λ i l. get_or buf i default ∷ l) (sym (mod-eq-sub-mod le))
        (ap (λ i. span buf i k) e ∙ span_turn buf (h + 1) k (omega arith))

  pub span-mod : (buf : List A) (h k : ℕ) → h < n + n → span buf (h % n) k ≡ span buf h k
  span-mod buf h k lt = elim (mod_twice h n lt) [
    | inl (_, e) ↦ ap (λ i. span buf i k) e
    | inr (le, e) ↦ ap (λ i. span buf i k) e ∙ span_turn buf h k le
  ]

  -- A write behind the last of fewer than `n` elements is not among them.
  pub span-set :
      (buf : List A) (v : A) (h m j k : ℕ)
      → h < n
      → m < n
      → h ≤ j
      → j + k ≤ h + m
      → span (set buf ((h + m) % n) v) j k ≡ span buf j k
  span-set buf v h m j zero hh hm hj hk = refl
  span-set buf v h m j (suc k) hh hm hj hk =
      ap₂ ◌∷◌ (get_or-set_ne buf v default apart)
        (span-set buf v h m (j + 1) k hh hm (omega arith) (omega arith))
    where
      apart : (h + m) % n ≢ j % n
      apart = omega (arith, mod_twice (h + m) n (omega arith), mod_twice j n (omega arith))

  -- Writing there appends the element.
  pub span-push :
      (buf : List A) (v : A) (h m : ℕ)
      → length buf ≡ n
      → h < n
      → m < n
      → span (set buf ((h + m) % n) v) h (suc m) ≡ span buf h m ++ v ∷ []
  span-push buf v h m len hh hm =
      span-snoc (set buf ((h + m) % n) v) h m
      ∙ ap₂ (λ l x. l ++ x ∷ []) (span-set buf v h m h m hh hm (omega arith) (omega arith))
          (get_or-set_self buf ((h + m) % n) v default
            (omega (arith, mod_twice (h + m) n (omega arith))))

  -- `span` matches on `suc`, the code tests for zero.
  pub span-pop :
      (buf : List A) (h k : ℕ)
      → h < n
      → k ≢ 0
      → span buf h k ≡ get_or buf h default ∷ span buf ((h + 1) % n) (k - 1)
  span-pop buf h zero hh p = absurd (p refl)
  span-pop buf h (suc k) hh p =
      ap₂ (λ i l. get_or buf i default ∷ l) (mod-eq_of_lt hh)
        (sym (span-mod buf (h + 1) k (omega arith)) ∙ ap (span buf ((h + 1) % n)) (omega arith))
