-- ===== src/Health/Graph/Cycles.antt =====
-- Routes along dependencies, and what the search for a cycle says of them.
use common_system.Prelude.{
  ℕ, zero, suc, true, false, ◌&&◌, ◌||◌, ◌≡◌, subst, some, ◌⊎◌, inl, inr, List, [], ◌∷◌, ◌++◌, ◌==◌,
  arith, Bool-cases,
}
use common_system.Health.Graph.{search_from}
use common_system.Prelude.Maps.{Links, has, get, has-append}
use common_system.Health.Graph.Search.{Closed, search-Closed}

-- b can be reached from a by following dependencies.
pub data Route (m : Links) : ℕ → ℕ → Type 0 where
  stay : (a : ℕ) → Route m a a
  via : {a b c : ℕ} → has b (get a m) ≡ true → Route m b c → Route m a c

abbrev pub Acyclic : Links → Type 0
Acyclic m = (a b : ℕ) → has b (get a m) ≡ true → ¬ Route m b a

pub join_routes : {m : Links} {a b c : ℕ} → Route m a b → Route m b c → Route m a c
join_routes (stay a) s = s
join_routes (via h r) s = via h (join_routes r s)

-- Where nodes lead to k, so does k itself.
pub passed-Route :
    {m : Links} (k : ℕ) (passed : List ℕ)
    → ((j : ℕ) → has j passed ≡ true → Route m j k)
    → (i : ℕ) → has i (k ∷ passed) ≡ true
    → Route m i k
unfolding has
passed-Route {m = m} k passed routes i h = elim (Bool-cases (has i passed)) [
  | inl old ↦ routes i old
  | inr here ↦ subst (λ x. Route m x k) (ground (arith, h, here)) (stay k)
]

pub Route-fewer :
    {m n : Links} (sub : (a b : ℕ) → has b (get a m) ≡ true → has b (get a n) ≡ true) {a b : ℕ}
    → Route m a b
    → Route n a b
Route-fewer sub (stay a) = stay a
Route-fewer sub (via {a = a} {b = b} h r) = via (sub a b h) (Route-fewer sub r)

pub Acyclic-fewer :
    {m n : Links} (sub : (a b : ℕ) → has b (get a m) ≡ true → has b (get a n) ≡ true)
    → Acyclic n
    → Acyclic m
Acyclic-fewer sub acyclic a b h r = acyclic a b (sub a b h) (Route-fewer sub r)

Closed-Route :
    {m : Links} {from : ℕ} {queue : List ℕ} (c : Closed m from queue) {a b : ℕ}
    → Route m a b
    → c.set a ≡ true
    → c.set b ≡ true
Closed-Route c (stay a) h = h
Closed-Route c (via {a = a} {b = b} e r) h = Closed-Route c r (c.closed a b h e)

pub search_false :
    (fuel : ℕ) (m : Links) (from to : ℕ)
    → search_from fuel m from [] (to ∷ []) ≡ some false
    → ¬ Route m to from
unfolding has
search_false fuel m from to e r =
    let c = search-Closed fuel m from to e in
    let met = Closed-Route c r (c.holds to (ground arith)) in
    absurd (ground (arith, met, c.without))

-- `to` reaches all that is queued, so it reaches what the search meets.
pub search_true :
    (fuel : ℕ) (m : Links) (from to : ℕ) (visited queue : List ℕ)
    → ((k : ℕ) → has k queue ≡ true → Route m to k)
    → search_from fuel m from visited queue ≡ some true
    → Route m to from
unfolding search_from has
search_true zero m from to visited queue reached e = absurd (cc e)
search_true (suc fuel) m from to visited [] reached e = absurd (cc e)
search_true (suc fuel) m from to visited (current ∷ queue) reached e =
    elim (Bool-cases (current == from)) [
      | inl met ↦ subst (λ k. Route m to k) (ground (arith, met)) (reached current (ground arith))
      | inr unmet ↦ elim (Bool-cases (has current visited)) [
        | inl seen ↦
            search_true fuel m from to visited queue (λ k h. reached k (ground (arith, h)))
              (ground (arith, e, unmet, seen))
        | inr fresh ↦
            search_true fuel m from to (current ∷ visited) (queue ++ get current m)
              (λ k h. elim (Bool-cases (has k queue)) [
                | inl queued ↦ reached k (ground (arith, queued))
                | inr new ↦
                    join_routes (reached current (ground arith))
                      (via (ground (arith, h, new, has-append k queue (get current m))) (stay k))
              ])
              (ground (arith, e, unmet, fresh))
      ]
    ]

-- A map with one edge more, d to e.
module _ {m n : Links} (d e : ℕ)
    (edges : (a b : ℕ) → has b (get a n) ≡ (((d == a) && (e == b)) || has b (get a m))) where
  split-Route : {a b : ℕ} → Route n a b → Route m a b ⊎ (Route m a d × Route m e b)
  split-Route (stay a) = inl (stay a)
  split-Route (via {a = a} {b = x} {c = b} h r) = elim (Bool-cases (has x (get a m))) [
    | inl old ↦ elim (split-Route r) [ inl s ↦ inl (via old s) | inr (s, t) ↦ inr (via old s, t) ]
    | inr new ↦
        let start : a ≡ d = ground (arith, h, new, edges a x) in
        let end : x ≡ e = ground (arith, h, new, edges a x) in
        let here : Route m a d = subst (λ k. Route m a k) start (stay a) in
        elim (split-Route r) [
          | inl s ↦ inr (here, subst (λ k. Route m k b) end s)
          | inr (s, t) ↦ inr (here, t)
        ]
  ]

  pub Acyclic-link : Acyclic m → ¬ Route m e d → Acyclic n
  Acyclic-link acyclic apart a b h r = elim (Bool-cases (has b (get a m))) [
    | inl old ↦ elim (split-Route r) [
      | inl s ↦ acyclic a b old s
      | inr (s, t) ↦ apart (join_routes t (via old s))
    ]
    | inr new ↦
        let start : a ≡ d = ground (arith, h, new, edges a b) in
        let end : b ≡ e = ground (arith, h, new, edges a b) in
        elim (split-Route r) [
          | inl s ↦ apart (subst (λ k. Route m e k) start (subst (λ k. Route m k a) end s))
          | inr (s, t) ↦ apart (subst (λ k. Route m k d) end s)
        ]
  ]
