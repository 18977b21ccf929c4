-- ===== src/ComponentPool.antt =====
-- component_pool.h. The slots of all chunks of a pool are one list, the heap, in which a chunk follows
-- the one before; the slot behind the pointer `p` is number `p - 1`, so that 0 is `nullptr`.
-- An allocation succeeds: a failed one, `nullptr` by `std::nothrow`, is not checked in the source.
pub mod Slots
pub mod Allocating
pub mod FreeList
pub mod Growth
use raccoon_ecs.Common.{
  ℕ, zero, suc, ◌+◌, ◌*◌, ◌%◌, ◌^◌, Bool, true, false, List, [], ◌∷◌, ◌++◌, Option, none, some,
  length, get_elem?, set, ◌==◌, if◌then◌else◌,
}
use raccoon_ecs.Outcome.{Ptr, nullptr, Outcome, ok, fault, invalid_slot, ◌>>=◌}

-- `ComponentSlot`: a link of the free list, or a component.
pub data Slot (V : Type 0) : Type 0 where
  next_free_slot : Ptr → Slot V
  component : V → Slot V

abbrev pub Heap : Type 0 → Type 0
Heap V = List (Slot V)

pub record ComponentPool : Type 0 where
  pub free_list : Ptr
  pub chunks : List Ptr
  pub allocated_components_count : ℕ
  pub default_chunk_size : ℕ
  pub grow_strategy_fn : Option (ℕ → ℕ)

-- `getNewChunkSize`
unfoldable pub get_new_chunk_size : ComponentPool → ℕ
get_new_chunk_size pool =
    if pool.allocated_components_count == 0
    then pool.default_chunk_size
    else elim pool.grow_strategy_fn [
      | none ↦ pool.allocated_components_count * 2 % 2 ^ 64
      | some f ↦ f pool.allocated_components_count
    ]

-- The slots of a new chunk at the pointer `p`, each linked to the one behind it, the last to `next`.
unfoldable pub linked_slots : {V : Type 0} → Ptr → ℕ → Ptr → List (Slot V)
linked_slots p zero next = []
linked_slots p (suc zero) next = next_free_slot next ∷ []
linked_slots p (suc (suc n)) next = next_free_slot (p + 1) ∷ linked_slots (p + 1) (suc n) next

module _ {V : Type 0} where
  unfoldable pub slot_at : Heap V → Ptr → Option (Slot V)
  slot_at h zero = none
  slot_at h (suc i) = get_elem? h i

  unfoldable pub write : Heap V → Ptr → Slot V → Heap V
  write h zero slot = h
  write h (suc i) slot = set h i slot

  -- `allocateNewChunk`: for the size 0 the loop runs out of the chunk.
  unfoldable pub allocate_new_chunk : ComponentPool → Heap V → Outcome (ComponentPool × Heap V)
  unfolding get_new_chunk_size linked_slots
  allocate_new_chunk pool h =
      let n = get_new_chunk_size pool in
      let p = length h + 1 in
      if n == 0
      then fault invalid_slot
      else ok (
        record pool {
          free_list = p;
          chunks = pool.chunks ++ p ∷ [];
          allocated_components_count = (pool.allocated_components_count + n) % 2 ^ 64;
        },
        h ++ linked_slots p n pool.free_list,
      )

  -- `slot->nextFreeSlot`
  unfoldable pub next_of : Heap V → Ptr → Outcome Ptr
  unfolding slot_at
  next_of h p = elim (slot_at h p) [
    | none ↦ fault invalid_slot
    | some slot ↦ elim slot [ next_free_slot q ↦ ok q | component v ↦ fault invalid_slot ]
  ]

  -- `ComponentPool(defaultChunkSize, needPreallocate, growStrategyFn)`
  unfoldable pub make_pool : ℕ → Bool → Option (ℕ → ℕ) → Heap V → Outcome (ComponentPool × Heap V)
  unfolding allocate_new_chunk
  make_pool size need_preallocate grow h =
      let pool : ComponentPool = record {
        free_list = nullptr;
        chunks = [];
        allocated_components_count = 0;
        default_chunk_size = size;
        grow_strategy_fn = grow;
      } in
      if need_preallocate then allocate_new_chunk pool h else ok (pool, h)

  -- `acquireComponent`, with the component that is constructed.
  unfoldable pub acquire_component :
      ComponentPool → Heap V → V → Outcome (ComponentPool × Heap V × Ptr)
  unfolding allocate_new_chunk next_of write
  acquire_component pool h v = do
    (pool', h') ← if pool.free_list == nullptr then allocate_new_chunk pool h else ok (pool, h)
    next ← next_of h' pool'.free_list
    ok (record pool' { free_list = next }, write h' pool'.free_list (component v), pool'.free_list)

  -- `releaseComponent`, of a pointer to a component.
  unfoldable pub release_component : ComponentPool → Heap V → Ptr → Outcome (ComponentPool × Heap V)
  unfolding slot_at write
  release_component pool h p = elim (slot_at h p) [
    | none ↦ fault invalid_slot
    | some slot ↦ elim slot [
      | next_free_slot q ↦ fault invalid_slot
      | component v ↦ ok (record pool { free_list = p }, write h p (next_free_slot pool.free_list))
    ]
  ]
