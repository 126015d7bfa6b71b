-- ===== src/Prelude/Preds.antt =====
-- Predicates over lists by recursion: they compute to tuples.
use mathlib.Core.Path.{◌≡◌, sym, subst}
use mathlib.Core.Logic.{◌⊎◌, inl, inr}
use mathlib.Core.List.{List, [], ◌∷◌, ◌++◌}

module _ {ℓ κ} {A : Type ℓ} (P : A → Type κ) where
  abbrev pub All : List A → Type κ
  All [] = Unit
  All (a ∷ rest) = P a × All rest

  pub All-append : (us vs : List A) → All us → All vs → All (us ++ vs)
  All-append [] vs _ hv = hv
  All-append (_ ∷ rest) vs (ha, hrest) hv = (ha, All-append rest vs hrest hv)

-- Membership as a place in the list.
abbrev pub In : {A : Type 0} → A → List A → Type 0
In a [] = ⊥
In a (x ∷ xs) = (a ≡ x) ⊎ In a xs

pub All-In {κ} : {A : Type 0} (P : A → Type κ) {a : A} (xs : List A) → All P xs → In a xs → P a
All-In P [] h i = elim i [ ]
All-In P (x ∷ xs) h (inl e) = subst P (sym e) h.0
All-In P (x ∷ xs) h (inr i) = All-In P xs h.1 i
