-- ===== src/Prelude/Maps.antt =====
-- std::unordered_map and std::set with numbers for keys, as lists: the program does not look at their
-- order.
use common_system.Prelude.{
  ℕ, Bool, false, not, ◌&&◌, ◌||◌, ◌≡◌, refl, Option, none, some, List, [], ◌∷◌, ◌++◌, ◌==◌,
  if◌then◌else◌, arith,
}

abbrev pub Map : Type 0 → Type 0
Map A = List (ℕ × A)

abbrev pub Links : Type 0
Links = Map (List ℕ)

unfoldable pub has : ℕ → List ℕ → Bool
has k [] = false
has k (j ∷ s) = (j == k) || has k s

unfoldable pub insert : ℕ → List ℕ → List ℕ
insert k s = if has k s then s else k ∷ s

unfoldable pub remove : ℕ → List ℕ → List ℕ
remove k [] = []
remove k (j ∷ s) = let rest = remove k s in if j == k then rest else j ∷ rest

unfoldable pub get : ℕ → Links → List ℕ
get k [] = []
get k (entry ∷ m) = let rest = get k m in if entry.0 == k then entry.1 else rest

module _ {A : Type 0} where
  unfoldable pub has_key : ℕ → Map A → Bool
  has_key k [] = false
  has_key k (entry ∷ m) = (entry.0 == k) || has_key k m

  unfoldable pub at : ℕ → Map A → Option A
  at k [] = none
  at k (entry ∷ m) = let rest = at k m in if entry.0 == k then some entry.1 else rest

  unfoldable pub put : ℕ → A → Map A → Map A
  put k v [] = (k, v) ∷ []
  put k v (entry ∷ m) = let rest = put k v m in if entry.0 == k then (k, v) ∷ m else entry ∷ rest

  unfoldable pub drop : ℕ → Map A → Map A
  drop k [] = []
  drop k (entry ∷ m) = let rest = drop k m in if entry.0 == k then rest else entry ∷ rest

pub has-append : (k : ℕ) (s t : List ℕ) → has k (s ++ t) ≡ (has k s || has k t)
unfolding has
has-append k [] t = refl
has-append k (j ∷ s) t = ground (arith, has-append k s t)

pub has-insert : (k j : ℕ) (s : List ℕ) → has j (insert k s) ≡ ((k == j) || has j s)
unfolding has insert
has-insert k j s = ground arith

pub has-remove : (k j : ℕ) (s : List ℕ) → has j (remove k s) ≡ (not (k == j) && has j s)
unfolding has remove
has-remove k j [] = ground arith
has-remove k j (i ∷ s) = ground (arith, has-remove k j s)

pub get-put :
    (k j : ℕ) (s : List ℕ) (m : Links) → get j (put k s m) ≡ (if k == j then s else get j m)
unfolding get put
get-put k j s [] = ground arith
get-put k j s (entry ∷ m) = ground (arith, get-put k j s m)

pub get-drop : (k j : ℕ) (m : Links) → get j (drop k m) ≡ (if k == j then [] else get j m)
unfolding get drop
get-drop k j [] = ground arith
get-drop k j (entry ∷ m) = ground (arith, get-drop k j m)

module _ {A : Type 0} where
  pub has_key-put :
      (k j : ℕ) (v : A) (m : Map A) → has_key j (put k v m) ≡ ((k == j) || has_key j m)
  unfolding has_key put
  has_key-put k j v [] = ground arith
  has_key-put k j v (entry ∷ m) = ground (arith, has_key-put k j v m)

  pub has_key-drop : (k j : ℕ) (m : Map A) → has_key j (drop k m) ≡ (not (k == j) && has_key j m)
  unfolding has_key drop
  has_key-drop k j [] = ground arith
  has_key-drop k j (entry ∷ m) = ground (arith, has_key-drop k j m)

  pub at-put :
      (k j : ℕ) (v : A) (m : Map A) → at j (put k v m) ≡ (if k == j then some v else at j m)
  unfolding at put
  at-put k j v [] = ground arith
  at-put k j v (entry ∷ m) = ground (arith, at-put k j v m)

  pub at-drop : (k j : ℕ) (m : Map A) → at j (drop k m) ≡ (if k == j then none else at j m)
  unfolding at drop
  at-drop k j [] = ground arith
  at-drop k j (entry ∷ m) = ground (arith, at-drop k j m)
