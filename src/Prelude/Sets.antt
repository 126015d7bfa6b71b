-- ===== src/Prelude/Sets.antt =====
-- Members that a list lacks, and names that stand once.
use common_system.Prelude.{
  ℕ, ◌+◌, ◌≤◌, ◌<◌, true, false, ◌≡◌, refl, sym, ap, ◌∙◌, List, [], ◌∷◌, ◌++◌, ◌==◌, if◌then◌else◌,
  length, arith, Bool-cases, inl, inr,
}
use common_system.Prelude.Maps.{
  Map, Links, has, insert, remove, has_key, get, put, drop, has-append, has-remove, has_key-put,
  has_key-drop,
}

-- How many members of a list are not in `impacted`.
abbrev pub unseen : List ℕ → List ℕ → ℕ
unseen impacted [] = 0
unseen impacted (j ∷ s) = (if has j impacted then 0 else 1) + unseen impacted s

pub unseen-grows : (d : ℕ) (impacted s : List ℕ) → unseen (d ∷ impacted) s ≤ unseen impacted s
unfolding has
unseen-grows d impacted [] = omega arith
unseen-grows d impacted (j ∷ s) = ground (arith, unseen-grows d impacted s)

pub unseen-drops :
    (d : ℕ) (impacted s : List ℕ)
    → has d impacted ≡ false
    → has d s ≡ true
    → unseen (d ∷ impacted) s < unseen impacted s
unfolding has
unseen-drops d impacted [] new h = absurd (cc h)
unseen-drops d impacted (j ∷ s) new h =
    ground (arith, unseen-drops d impacted s new, unseen-grows d impacted s, h, new)

-- No member stands twice.
abbrev pub Once : List ℕ → Type 0
Once [] = Unit
Once (x ∷ s) = (has x s ≡ false) × Once s

pub Once-remove : (k : ℕ) (s : List ℕ) → Once s → Once (remove k s)
unfolding remove
Once-remove k [] o = tt
Once-remove k (j ∷ s) o = elim (Bool-cases (j == k)) [
  | inl same ↦ rw same (Once-remove k s o.1)
  | inr other ↦ rw other (ground (arith, o.0, has-remove k j s), Once-remove k s o.1)
]

pub Once-insert : (k : ℕ) (s : List ℕ) → Once s → Once (insert k s)
unfolding insert
Once-insert k s o = elim (Bool-cases (has k s)) [ inl old ↦ rw old o | inr new ↦ rw new (new, o) ]

pub Once-concat : (s : List ℕ) (k : ℕ) → Once s → has k s ≡ false → Once (s ++ k ∷ [])
unfolding has
Once-concat [] k o new = (refl, tt)
Once-concat (j ∷ s) k o new =
    (ground (arith, o.0, new, has-append j s (k ∷ [])), Once-concat s k o.1 (ground (arith, new)))

-- Adding one member to the list that is counted against.
pub unseen-concat :
    (c : ℕ) (r s : List ℕ)
    → Once s
    → has c r ≡ false
    → unseen (r ++ c ∷ []) s + (if has c s then 1 else 0) ≡ unseen r s
unfolding has
unseen-concat c r [] o new = omega arith
unseen-concat c r (j ∷ s) o new =
    ground (arith, o.0, new, unseen-concat c r s o.1 new, has-append j r (c ∷ []))

pub unseen-zero : (r s : List ℕ) (k : ℕ) → unseen r s ≡ 0 → has k s ≡ true → has k r ≡ true
unfolding has
unseen-zero r [] k e h = absurd (cc h)
unseen-zero r (j ∷ s) k e h = ground (arith, e, h, unseen-zero r s k)

-- A list that counts something has a member that is not seen.
pub unseen-member : (r s : List ℕ) → 0 < unseen r s → (k : ℕ) × (has k s ≡ true) × (has k r ≡ false)
unfolding has
unseen-member r [] h = absurd (omega arith)
unseen-member r (j ∷ s) h = elim (Bool-cases (has j r)) [
  | inl old ↦
      let (k, in_s, new) = unseen-member r s (ground (arith, h, old)) in
      (k, ground (arith, in_s), new)
  | inr new ↦ (j, ground arith, new)
]

length-remove_le : (k : ℕ) (s : List ℕ) → length (remove k s) ≤ length s
unfolding remove
length-remove_le k [] = omega arith
length-remove_le k (j ∷ s) = ground (arith, length-remove_le k s)

pub length-remove : (k : ℕ) (s : List ℕ) → has k s ≡ true → length (remove k s) < length s
unfolding has remove
length-remove k [] h = absurd (cc h)
length-remove k (j ∷ s) h = ground (arith, h, length-remove k s, length-remove_le k s)

pub Once-length :
    (s t : List ℕ) → Once s → ((k : ℕ) → has k s ≡ true → has k t ≡ true) → length s ≤ length t
unfolding has
Once-length [] t o sub = omega arith
Once-length (x ∷ s) t o sub = omega (
  arith,
  Once-length s (remove x t) o.1 (λ k h. ground (arith, h, o.0, sub k, has-remove x k t)),
  length-remove x t (sub x (ground arith)),
)

module _ {A : Type 0} where
  abbrev pub keys : Map A → List ℕ
  keys [] = []
  keys (entry ∷ m) = entry.0 ∷ keys m

  pub has-keys : (k : ℕ) (m : Map A) → has k (keys m) ≡ has_key k m
  unfolding has has_key
  has-keys k [] = refl
  has-keys k (entry ∷ m) = ground (arith, has-keys k m)

  pub Once-put : (k : ℕ) (v : A) (m : Map A) → Once (keys m) → Once (keys (put k v m))
  unfolding put has
  Once-put k v [] o = (refl, tt)
  Once-put k v (entry ∷ m) o = elim (Bool-cases (entry.0 == k)) [
    | inl same ↦ rw same (ground (arith, o.0, same), o.1)
    | inr other ↦ rw other (
      ground (
        arith,
        o.0,
        other,
        has-keys entry.0 m,
        has-keys entry.0 (put k v m),
        has_key-put k entry.0 v m,
      ),
      Once-put k v m o.1,
    )
  ]

  pub Once-drop : (k : ℕ) (m : Map A) → Once (keys m) → Once (keys (drop k m))
  unfolding drop has
  Once-drop k [] o = tt
  Once-drop k (entry ∷ m) o = elim (Bool-cases (entry.0 == k)) [
    | inl same ↦ rw same (Once-drop k m o.1)
    | inr other ↦ rw other (
      ground (
        arith,
        o.0,
        other,
        has-keys entry.0 m,
        has-keys entry.0 (drop k m),
        has_key-drop k entry.0 m,
      ),
      Once-drop k m o.1,
    )
  ]

  pub length-keys : (m : Map A) → length (keys m) ≡ length m
  length-keys [] = refl
  length-keys (entry ∷ m) = omega (arith, length-keys m)

pub unseen-nil : (s : List ℕ) → unseen [] s ≡ length s
unfolding has
unseen-nil [] = refl
unseen-nil (j ∷ s) = omega (arith, unseen-nil s)

pub get-missing : (k : ℕ) (m : Links) → has_key k m ≡ false → get k m ≡ []
unfolding get has_key
get-missing k [] h = refl
get-missing k (entry ∷ m) h = ground (arith, h, get-missing k m)

pub has-head : (k : ℕ) (s : List ℕ) → has k (k ∷ s) ≡ true
unfolding has
has-head k s = ground arith

pub Once-before : (s t : List ℕ) → Once (s ++ t) → Once s
Once-before [] t o = tt
Once-before (x ∷ s) t o = (ground (arith, o.0, has-append x s t), Once-before s t o.1)

-- find_if and erase of one entry.
module _ {A : Type 0} where
  unfoldable pub erase_first : ℕ → Map A → Map A
  erase_first k [] = []
  erase_first k (entry ∷ m) = let rest = erase_first k m in if entry.0 == k then m else entry ∷ rest

  has_key-erase : (k j : ℕ) (m : Map A) → has_key j m ≡ false → has_key j (erase_first k m) ≡ false
  unfolding has_key erase_first
  has_key-erase k j [] h = refl
  has_key-erase k j (entry ∷ m) h = ground (arith, h, has_key-erase k j m)

  pub Once-erase : (k : ℕ) (m : Map A) → Once (keys m) → Once (keys (erase_first k m))
  unfolding erase_first
  Once-erase k [] o = tt
  Once-erase k (entry ∷ m) o = elim (Bool-cases (entry.0 == k)) [
    | inl same ↦ rw same o.1
    | inr other ↦ rw other (
      has-keys entry.0 (erase_first k m)
          ∙ has_key-erase k entry.0 m (sym (has-keys entry.0 m) ∙ o.0),
      Once-erase k m o.1,
    )
  ]

  pub keys-append : (m n : Map A) → keys (m ++ n) ≡ keys m ++ keys n
  keys-append [] n = refl
  keys-append (entry ∷ m) n = ap (λ s. entry.0 ∷ s) (keys-append m n)

  pub Once-entry :
      (k : ℕ) (v : A) (m : Map A)
      → Once (keys m)
      → has_key k m ≡ false
      → Once (keys (m ++ (k, v) ∷ []))
  Once-entry k v m o new =
      rw (keys-append m ((k, v) ∷ [])) (Once-concat (keys m) k o (has-keys k m ∙ new))
