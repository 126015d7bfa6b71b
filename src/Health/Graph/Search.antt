-- ===== src/Health/Graph/Search.antt =====
-- The search for a cycle ends, and what it says when it finds none.
use common_system.Prelude.{
  ℕ, zero, suc, ◌+◌, ◌≤◌, ◌<◌, Bool, true, false, ◌||◌, ◌≡◌, refl, some, List, [], ◌∷◌, ◌++◌, ◌==◌,
  if◌then◌else◌, length, length-append, arith, Bool-cases, inl, inr,
}
use common_system.Health.Graph.{search_from}
use common_system.Prelude.Maps.{Links, has, get, has-append}

-- The dependencies that the search has not followed.
abbrev pub pending : List ℕ → Links → ℕ
pending visited [] = 0
pending visited (entry ∷ m) =
    (if has entry.0 visited then 0 else length entry.1) + pending visited m

pending-grows : (c : ℕ) (visited : List ℕ) (m : Links) → pending (c ∷ visited) m ≤ pending visited m
unfolding has
pending-grows c visited [] = omega arith
pending-grows c visited (entry ∷ m) = ground (arith, pending-grows c visited m)

pending-followed :
    (c : ℕ) (visited : List ℕ) (m : Links)
    → has c visited ≡ false
    → pending (c ∷ visited) m + length (get c m) ≤ pending visited m
unfolding has get
pending-followed c visited [] h = omega arith
pending-followed c visited (entry ∷ m) h =
    ground (arith, pending-followed c visited m h, pending-grows c visited m)

pub search_ends :
    (fuel : ℕ) (m : Links) (from : ℕ) (visited queue : List ℕ)
    → length queue + pending visited m < fuel
    → (b : Bool) × (search_from fuel m from visited queue ≡ some b)
unfolding search_from
search_ends zero m from visited queue h = absurd (omega arith)
search_ends (suc fuel) m from visited [] h = (false, refl)
search_ends (suc fuel) m from visited (current ∷ queue) h = elim (Bool-cases (current == from)) [
  | inl e ↦ rw e (true, refl)
  | inr e ↦ elim (Bool-cases (has current visited)) [
    | inl seen ↦ rw (e, seen) (search_ends fuel m from visited queue (omega arith))
    | inr fresh ↦
        rw (e, fresh)
          (search_ends fuel m from (current ∷ visited) (queue ++ get current m) (
            omega (
              arith,
              length-append queue (get current m),
              pending-followed current visited m fresh,
            )))
  ]
]

-- A set without `from` that holds what the search has queued, and whose members' dependencies it
-- holds too.
pub record Closed (m : Links) (from : ℕ) (queue : List ℕ) : Type 0 where
  pub set : ℕ → Bool
  pub without : set from ≡ false
  pub holds : (k : ℕ) → has k queue ≡ true → set k ≡ true
  pub closed : (k j : ℕ) → set k ≡ true → has j (get k m) ≡ true → set j ≡ true

-- What the search keeps: the visited nodes are not `from`, and their dependencies are visited or
-- queued.
record Explored (m : Links) (from : ℕ) (visited queue : List ℕ) : Type 0 where
  missed : has from visited ≡ false
  followed :
      (k j : ℕ)
      → has k visited ≡ true
      → has j (get k m) ≡ true
      → (has j visited || has j queue) ≡ true

-- A set that is closed, holds the visited nodes and the queue.
record Sealed (m : Links) (from : ℕ) (visited queue : List ℕ) : Type 0 where
  seal : Closed m from queue
  visits : (k : ℕ) → has k visited ≡ true → seal.set k ≡ true

search-Sealed :
    (fuel : ℕ) (m : Links) (from : ℕ) (visited queue : List ℕ)
    → Explored m from visited queue
    → search_from fuel m from visited queue ≡ some false
    → Sealed m from visited queue
unfolding search_from has
search-Sealed zero m from visited queue x e = absurd (cc e)
search-Sealed (suc fuel) m from visited [] x e = record {
  seal = record {
    set = λ k. has k visited;
    without = x.missed;
    holds = λ k h. absurd (cc h);
    closed = λ k j hk hj. ground (arith, x.followed k j hk hj);
  };
  visits = λ k h. h;
}
search-Sealed (suc fuel) m from visited (current ∷ queue) x e =
    elim (Bool-cases (current == from)) [
      | inl met ↦ absurd (grind arith)
      | inr unmet ↦ elim (Bool-cases (has current visited)) [
        | inl seen ↦
            let s =
              search-Sealed fuel m from visited queue
                (record {
                  missed = x.missed;
                  followed = λ k j hk hj. ground (arith, x.followed k j hk hj, seen);
                })
                (ground (arith, e, unmet, seen)) in
            record {
              seal = record {
                set = s.seal.set;
                without = s.seal.without;
                holds = λ k h. ground (arith, s.seal.holds k, s.visits k, seen, h);
                closed = s.seal.closed;
              };
              visits = s.visits;
            }
        | inr fresh ↦
            let s =
              search-Sealed fuel m from (current ∷ visited) (queue ++ get current m)
                (record {
                  missed = ground (arith, x.missed, unmet);
                  followed = λ k j hk hj.
                      ground (arith, x.followed k j, hk, hj, has-append j queue (get current m));
                })
                (ground (arith, e, unmet, fresh)) in
            record {
              seal = record {
                set = s.seal.set;
                without = s.seal.without;
                holds = λ k h.
                    ground
                      (arith, s.seal.holds k, s.visits k, has-append k queue (get current m), h);
                closed = s.seal.closed;
              };
              visits = λ k h. ground (arith, s.visits k, h);
            }
      ]
    ]

pub search-Closed :
    (fuel : ℕ) (m : Links) (from to : ℕ)
    → search_from fuel m from [] (to ∷ []) ≡ some false
    → Closed m from (to ∷ [])
unfolding has
search-Closed fuel m from to e =
    (search-Sealed fuel m from [] (to ∷ [])
      (record { missed = refl; followed = λ k j hk hj. absurd (cc hk) }) e).seal
