-- ===== src/Health/Graph/Sort/Loop.antt =====
-- What the loops of topological_sort do to the degrees and to the queue.
use common_system.Prelude.{
  ℕ, true, false, ◌&&◌, ◌||◌, ◌≡◌, refl, subst, some, List, [], ◌∷◌, ◌++◌, ℤ, pos, eqb_int, ◌==◌,
  if◌then◌else◌, length, arith, Bool-cases, inl, inr, append_assoc,
}
use common_system.Prelude.Maps.{Map, Links, has, has_key, get, put, has-append, has_key-put, at}
use common_system.Prelude.Sets.{Once, Once-concat, keys, has-keys, Once-put}
use common_system.Health.Graph.Sort.{
  degree, decrement, relax, zero_degrees, count_degrees, zero_in_degree, to_int,
}

pub degree-put :
    (k j : ℕ) (v : ℤ) (m : Map ℤ) → degree j (put k v m) ≡ (if k == j then v else degree j m)
unfolding degree put
degree-put k j v [] = ground arith
degree-put k j v (entry ∷ m) = ground (arith, degree-put k j v m)

pub at-get : (k : ℕ) (m : Links) → has_key k m ≡ true → at k m ≡ some (get k m)
unfolding at get has_key
at-get k [] h = absurd (cc h)
at-get k (entry ∷ m) h = ground (arith, h, at-get k m)

pub degree-relax :
    (ds : List ℕ) (degrees : Map ℤ) (queue : List ℕ) (k : ℕ)
    → Once ds
    → degree k (relax ds degrees queue).0
      ≡ (if has k ds then decrement (degree k degrees) else degree k degrees)
unfolding relax has
degree-relax [] degrees queue k o = refl
degree-relax (d ∷ ds) degrees queue k o = ground (
  arith,
  o.0,
  degree-relax ds (put d (decrement (degree d degrees)) degrees)
      (if eqb_int (decrement (degree d degrees)) (pos 0) then queue ++ d ∷ [] else queue) k o.1,
  degree-put d k (decrement (degree d degrees)) degrees,
)

-- A dependent joins the queue where its degree falls to zero.
pub has-relax :
    (ds : List ℕ) (degrees : Map ℤ) (queue : List ℕ) (k : ℕ)
    → Once ds
    → has k (relax ds degrees queue).1
      ≡ (has k queue || (has k ds && eqb_int (decrement (degree k degrees)) (pos 0)))
unfolding relax has
has-relax [] degrees queue k o = ground arith
has-relax (d ∷ ds) degrees queue k o = ground (
  arith,
  o.0,
  has-relax ds (put d (decrement (degree d degrees)) degrees)
      (if eqb_int (decrement (degree d degrees)) (pos 0) then queue ++ d ∷ [] else queue) k o.1,
  degree-put d k (decrement (degree d degrees)) degrees,
  has-append k queue (d ∷ []),
)

pub Once-relax :
    (ds : List ℕ) (degrees : Map ℤ) (before queue : List ℕ)
    → Once ds
    → Once (before ++ queue)
    → ((k : ℕ) → has k ds ≡ true → has k (before ++ queue) ≡ false)
    → Once (before ++ (relax ds degrees queue).1)
unfolding relax has
Once-relax [] degrees before queue o q new = q
Once-relax (d ∷ ds) degrees before queue o q new =
    let less : ℤ = decrement (degree d degrees) in
    elim (Bool-cases (eqb_int less (pos 0))) [
      | inl zero_ ↦
          rw (zero_, relax)
            (Once-relax ds (put d less degrees) before (queue ++ d ∷ []) o.1
              (subst Once (append_assoc before queue (d ∷ []))
                (Once-concat (before ++ queue) d q (new d (ground arith))))
              (λ k h. ground (
                arith,
                h,
                o.0,
                new k,
                has-append k before (queue ++ d ∷ []),
                has-append k queue (d ∷ []),
                has-append k before queue,
              )))
      | inr more ↦
          rw (more, relax)
            (Once-relax ds (put d less degrees) before queue o.1 q
              (λ k h. new k (ground (arith, h))))
    ]

-- The degrees that the loop starts with.
pub degree-count :
    (m : Links) (degrees : Map ℤ) (k : ℕ)
    → Once (keys m)
    → degree k (count_degrees m degrees)
      ≡ (if has_key k m then to_int (length (get k m)) else degree k degrees)
unfolding count_degrees has_key get has
degree-count [] degrees k o = refl
degree-count (entry ∷ m) degrees k o = ground (
  arith,
  o.0,
  has-keys k m,
  degree-count m (put entry.0 (to_int (length entry.1)) degrees) k o.1,
  degree-put entry.0 k (to_int (length entry.1)) degrees,
)

pub degree-zeros :
    (nodes : Map ℕ) (degrees : Map ℤ) (k : ℕ)
    → degree k degrees ≡ pos 0
    → degree k (zero_degrees nodes degrees) ≡ pos 0
unfolding zero_degrees
degree-zeros [] degrees k e = e
degree-zeros (entry ∷ nodes) degrees k e =
    degree-zeros nodes (put entry.0 (pos 0) degrees) k
      (ground (arith, e, degree-put entry.0 k (pos 0) degrees))

pub has_key-zeros :
    (nodes : Map ℕ) (degrees : Map ℤ) (k : ℕ)
    → has_key k (zero_degrees nodes degrees) ≡ (has_key k nodes || has_key k degrees)
unfolding zero_degrees has_key
has_key-zeros [] degrees k = refl
has_key-zeros (entry ∷ nodes) degrees k = ground (
  arith,
  has_key-zeros nodes (put entry.0 (pos 0) degrees) k,
  has_key-put entry.0 k (pos 0) degrees,
)

pub has_key-count :
    (m : Links) (degrees : Map ℤ) (k : ℕ)
    → has_key k (count_degrees m degrees) ≡ (has_key k m || has_key k degrees)
unfolding count_degrees has_key
has_key-count [] degrees k = refl
has_key-count (entry ∷ m) degrees k = ground (
  arith,
  has_key-count m (put entry.0 (to_int (length entry.1)) degrees) k,
  has_key-put entry.0 k (to_int (length entry.1)) degrees,
)

pub Once-zeros :
    (nodes : Map ℕ) (degrees : Map ℤ)
    → Once (keys degrees)
    → Once (keys (zero_degrees nodes degrees))
unfolding zero_degrees
Once-zeros [] degrees o = o
Once-zeros (entry ∷ nodes) degrees o =
    Once-zeros nodes (put entry.0 (pos 0) degrees) (Once-put entry.0 (pos 0) degrees o)

pub Once-count :
    (m : Links) (degrees : Map ℤ) → Once (keys degrees) → Once (keys (count_degrees m degrees))
unfolding count_degrees
Once-count [] degrees o = o
Once-count (entry ∷ m) degrees o =
    Once-count m (put entry.0 (to_int (length entry.1)) degrees)
      (Once-put entry.0 (to_int (length entry.1)) degrees o)

pub has-zero_in_degree :
    (degrees : Map ℤ) (k : ℕ)
    → Once (keys degrees)
    → has k (zero_in_degree degrees) ≡ (has_key k degrees && eqb_int (degree k degrees) (pos 0))
unfolding zero_in_degree has has_key degree
has-zero_in_degree [] k o = refl
has-zero_in_degree (entry ∷ degrees) k o =
    ground (arith, o.0, has-keys k degrees, has-zero_in_degree degrees k o.1)

pub Once-zero_in_degree : (degrees : Map ℤ) → Once (keys degrees) → Once (zero_in_degree degrees)
unfolding zero_in_degree
Once-zero_in_degree [] o = tt
Once-zero_in_degree (entry ∷ degrees) o = elim (Bool-cases (eqb_int entry.1 (pos 0))) [
  | inl zero_ ↦ rw zero_ (
    ground (arith, o.0, has-keys entry.0 degrees, has-zero_in_degree degrees entry.0 o.1),
    Once-zero_in_degree degrees o.1,
  )
  | inr more ↦ rw more (Once-zero_in_degree degrees o.1)
]
