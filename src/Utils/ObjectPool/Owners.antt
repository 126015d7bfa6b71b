-- ===== src/Utils/ObjectPool/Owners.antt =====
-- Who owns a block: the pool's stack or one live object, and never both.
use common_system.Prelude.{
  ℕ, zero, suc, ◌+◌, ◌<◌, ◌≤◌, ◌≡◌, refl, ap, ◌⊎◌, inl, inr, Bool, true, false, Bool-cases, Option,
  none, some, Option-cases, List, [], ◌∷◌, ◌++◌, arith, ◌==◌, if◌then◌else◌, length,
}
use common_system.Utils.ObjectPool.{
  ObjectPool, new_pool, release, clear, allocate_block_unlocked, reserve, acquire,
}

-- How often a block stands in a list.
abbrev pub count : ℕ → List ℕ → ℕ
count _ [] = 0
count block (b ∷ rest) = (if block == b then 1 else 0) + count block rest

count-snoc :
    (a b : ℕ) (xs : List ℕ) → count a (xs ++ b ∷ []) ≡ (if a == b then 1 else 0) + count a xs
count-snoc a b [] = refl
count-snoc a b (x ∷ xs) = omega (arith, count-snoc a b xs)

-- Every allocated block is owned exactly once, by the stack or by a live object, and nothing else is
-- owned; and no block is allocated twice.
pub record Owned (live : List ℕ) (p : ObjectPool) : Type 0 where
  pub owned_once : (a : ℕ) → count a p.free_list + count a live ≡ count a p.storage
  pub distinct : (a : ℕ) → count a p.storage ≤ 1
  pub grows : 0 < p.growth

-- One call of the pool's client: `hand_back i` releases the `i`-th of the live objects.
pub data PoolCall : Type 0 where
  take_one : PoolCall
  hand_back : ℕ → PoolCall
  stock : ℕ → PoolCall

-- The `i`-th of a list, and the others.
abbrev pub pick : ℕ → List ℕ → Option (ℕ × List ℕ)
pick i [] = none
pick zero (x ∷ xs) = some (x, xs)
pick (suc i) (x ∷ xs) = elim (pick i xs) [ none ↦ none | some (y, ys) ↦ some (y, x ∷ ys) ]

count-pick :
    (a i : ℕ) (xs : List ℕ) (y : ℕ) (ys : List ℕ)
    → pick i xs ≡ some (y, ys)
    → count a xs ≡ (if a == y then 1 else 0) + count a ys
count-pick a i [] y ys h = absurd (cc h)
count-pick a zero (x ∷ xs) y ys h = ground (arith, h)
count-pick a (suc i) (x ∷ xs) y ys h = elim (Option-cases (pick i xs)) [
  | inl gone ↦ absurd (ground (arith, gone))
  | inr (out, found) ↦ ground (arith, found, count-pick a i xs out.0 out.1 found)
]

new_pool-Owned : (growth : ℕ) → Owned [] (new_pool growth)
unfolding new_pool
new_pool-Owned growth = record {
  owned_once = λ a. omega arith;
  distinct = λ a. omega arith;
  grows = ground arith;
}

List-cases : (xs : List ℕ) → (xs ≡ []) ⊎ ((x : ℕ) × (rest : List ℕ) × (xs ≡ x ∷ rest))
List-cases [] = inl refl
List-cases (x ∷ xs) = inr (x, xs, refl)

-- The top of the stack changes hands.
taken-Owned :
    (live : List ℕ) (p : ObjectPool) (raw : ℕ) (rest : List ℕ)
    → p.free_list ≡ raw ∷ rest
    → Owned live p
    → Owned (raw ∷ live) (record p { free_list = rest })
taken-Owned live p raw rest e o = record {
  owned_once = λ a. omega (arith, o.owned_once a, ap (count a) e);
  distinct = o.distinct;
  grows = o.grows;
}

-- A client's calls, with the list of the objects that it holds. None is a fault of the pool. To
-- hand back what is not held is not a call.
abbrev pub World : Type 0
World = List ℕ × ObjectPool

module _ (operator_new : List ℕ → ℕ) where
  pub pool_call : PoolCall → World → Option World
  pool_call take_one (live, p) = elim (acquire operator_new p) [
    | none ↦ none
    | some (ptr, reused, q) ↦ some (ptr ∷ live, q)
  ]
  pool_call (hand_back i) (live, p) = elim (pick i live) [
    | none ↦ some (live, p)
    | some (ptr, rest) ↦ some (rest, release (some ptr) p)
  ]
  pool_call (stock n) (live, p) = some (live, reserve operator_new n p)

  pub run_pool : List PoolCall → World → Option World
  run_pool [] w = some w
  run_pool (c ∷ calls) w = elim (pool_call c w) [ none ↦ none | some w' ↦ run_pool calls w' ]

  -- `clear` while an object is live frees its block too: once the object is released, the next
  -- `acquire` hands out that block, which is not allocated any more.
  pub clear-release_dangling :
      (p : ObjectPool) (ptr : ℕ)
      → let q : ObjectPool = release (some ptr) (clear p) in
        (acquire operator_new q ≡ some (ptr, true, clear p)) × (count ptr q.storage ≡ 0)
  unfolding acquire release clear
  clear-release_dangling p ptr = (refl, refl)

module _ (operator_new : List ℕ → ℕ)
    (is_fresh : (blocks : List ℕ) → count (operator_new blocks) blocks ≡ 0) where
  block-Owned :
      (live : List ℕ) (p : ObjectPool)
      → Owned live p
      → let block : ℕ = operator_new p.storage in
        Owned live (record p { free_list = block ∷ p.free_list; storage = p.storage ++ block ∷ [] })
  block-Owned live p o = record {
    owned_once =
        λ a. omega (arith, o.owned_once a, count-snoc a (operator_new p.storage) p.storage);
    distinct = λ a.
        ground (
          arith,
          o.distinct a,
          is_fresh p.storage,
          count-snoc a (operator_new p.storage) p.storage,
        );
    grows = o.grows;
  }

  allocate-Owned :
      (n : ℕ) (live : List ℕ) (p : ObjectPool)
      → Owned live p
      → Owned live (allocate_block_unlocked operator_new n p)
  unfolding allocate_block_unlocked
  allocate-Owned zero live p o = o
  allocate-Owned (suc n) live p o = allocate-Owned n live _ (block-Owned live p o)

  length-allocate :
      (n : ℕ) (p : ObjectPool)
      → length (allocate_block_unlocked operator_new n p).free_list ≡ n + length p.free_list
  unfolding allocate_block_unlocked
  length-allocate zero p = omega arith
  length-allocate (suc n) p = omega (
    arith,
    length-allocate n (record p {
      free_list = operator_new p.storage ∷ p.free_list;
      storage = p.storage ++ operator_new p.storage ∷ [];
    }),
  )

  acquire-Owned :
      (live : List ℕ) (p : ObjectPool)
      → Owned live p
      → (ptr : ℕ) × (reused : Bool) × (q : ObjectPool) × (acquire operator_new p
          ≡ some (ptr, reused, q))
        × Owned (ptr ∷ live) q
  unfolding acquire
  acquire-Owned live p o = elim (List-cases p.free_list) [
    | inl dry ↦
        let p' : ObjectPool = allocate_block_unlocked operator_new p.growth p in
        let o' = allocate-Owned p.growth live p o in
        let stocked = length-allocate p.growth p in
        elim (List-cases p'.free_list) [
          | inl still_dry ↦ absurd (omega (arith, stocked, ap length still_dry, o.grows))
          | inr (raw, rest, e) ↦ (
            raw,
            false,
            record p' { free_list = rest },
            ground (arith, dry, e),
            taken-Owned live p' raw rest e o',
          )
        ]
    | inr (raw, rest, e) ↦ (
      raw,
      true,
      record p { free_list = rest },
      ground (arith, e),
      taken-Owned live p raw rest e o,
    )
  ]

  pool_call-Owned :
      (c : PoolCall) (live : List ℕ) (p : ObjectPool)
      → Owned live p
      → (w : World) × (pool_call operator_new c (live, p) ≡ some w) × Owned w.0 w.1
  unfolding pool_call release reserve
  pool_call-Owned take_one live p o =
      let (ptr, reused, q, found, owned) = acquire-Owned live p o in
      ((ptr ∷ live, q), ground (arith, found), owned)
  pool_call-Owned (hand_back i) live p o = elim (Option-cases (pick i live)) [
    | inl gone ↦ ((live, p), ground (arith, gone), o)
    | inr (out, found) ↦ (
      (out.1, record p { free_list = out.0 ∷ p.free_list }),
      ground (arith, found),
      record {
        owned_once = λ a. omega (arith, o.owned_once a, count-pick a i live out.0 out.1 found);
        distinct = o.distinct;
        grows = o.grows;
      },
    )
  ]
  pool_call-Owned (stock n) live p o = elim (Bool-cases (n == 0)) [
    | inl nothing ↦ ((live, p), rw nothing, o)
    | inr more ↦
        ((live, allocate_block_unlocked operator_new n p), rw more, allocate-Owned n live p o)
  ]

  run_pool-Owned :
      (calls : List PoolCall) (live : List ℕ) (p : ObjectPool)
      → Owned live p
      → (w : World) × (run_pool operator_new calls (live, p) ≡ some w) × Owned w.0 w.1
  unfolding run_pool
  run_pool-Owned [] live p o = ((live, p), refl, o)
  run_pool-Owned (c ∷ calls) live p o =
      let (w, first, owned) = pool_call-Owned c live p o in
      let (w', rest, owned') = run_pool-Owned calls w.0 w.1 owned in
      (w', ground (arith, first, rest), owned')

  -- Whatever is taken, handed back and reserved, in any order, from a new pool, no call fails, no
  -- block is held by two live objects, and no block that is held waits on the free stack. The
  -- allocator gives addresses that are not allocated.
  pub pool_sound :
      (calls : List PoolCall) (growth : ℕ)
      → (w : World) × (run_pool operator_new calls ([], new_pool growth) ≡ some w)
        × ((a : ℕ) → count a w.1.free_list + count a w.0 ≤ 1)
  pool_sound calls growth =
      let (w, ran, o) = run_pool-Owned calls [] (new_pool growth) (new_pool-Owned growth) in
      (w, ran, λ a. omega (arith, o.owned_once a, o.distinct a))
