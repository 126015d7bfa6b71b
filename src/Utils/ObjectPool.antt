-- ===== src/Utils/ObjectPool.antt =====
-- object_pool.h: blocks of raw storage that are reused. A `T*` is a number; `operator new` is not
-- under this repository and is a parameter: it gives an address, seeing the blocks that are
-- allocated. The mutex makes every method one step; `T`'s constructor runs after the lock.
pub mod Owners
use common_system.Prelude.{
  ℕ, zero, suc, Bool, true, false, Option, none, some, List, [], ◌∷◌, ◌++◌, ◌==◌, if◌then◌else◌,
  length,
}

-- `free_list` is the stack, its top first.
pub record ObjectPool : Type 0 where
  pub growth : ℕ
  pub free_list : List ℕ
  pub storage : List ℕ

unfoldable pub new_pool : ℕ → ObjectPool
new_pool growth = record {
  growth = if growth == 0 then 1 else growth;
  free_list = [];
  storage = [];
}

-- release(): the destructor runs, and the block goes back on the stack. A null pointer is ignored.
unfoldable pub release : Option ℕ → ObjectPool → ObjectPool
release none p = p
release (some ptr) p = record p { free_list = ptr ∷ p.free_list }

unfoldable pub clear : ObjectPool → ObjectPool
clear p = record p { free_list = []; storage = [] }

unfoldable pub available : ObjectPool → ℕ
available p = length p.free_list

-- top() and pop() of the stack. None is top() of an empty stack.
abbrev pub take_top : Bool → ObjectPool → Option (ℕ × Bool × ObjectPool)
take_top reused p = elim p.free_list [
  | [] ↦ none
  | raw ∷ rest ↦ some (raw, reused, record p { free_list = rest })
]

abbrev pub is_nil : List ℕ → Bool
is_nil [] = true
is_nil (_ ∷ _) = false

module _ (operator_new : List ℕ → ℕ) where
  unfoldable pub allocate_block_unlocked : ℕ → ObjectPool → ObjectPool
  allocate_block_unlocked zero p = p
  allocate_block_unlocked (suc count) p =
      let block : ℕ = operator_new p.storage in
      allocate_block_unlocked count
        (record p { free_list = block ∷ p.free_list; storage = p.storage ++ block ∷ [] })

  unfoldable pub reserve : ℕ → ObjectPool → ObjectPool
  reserve count p = if count == 0 then p else allocate_block_unlocked count p

  -- The block, whether it was reused, and the pool.
  unfoldable pub acquire : ObjectPool → Option (ℕ × Bool × ObjectPool)
  acquire p =
      if is_nil p.free_list
      then take_top false (allocate_block_unlocked p.growth p)
      else take_top true p
