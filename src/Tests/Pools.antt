-- ===== src/Tests/Pools.antt =====
-- A component pool at work.
use raccoon_ecs.ComponentFactory.{default_component_chunk_size}
use raccoon_ecs.ComponentPool.Growth.{allocate_new_chunk_bounds}
use raccoon_ecs.Common.{length, ◌+◌, ◌*◌, ◌≤◌, ◌⊎◌, ℕ, ◌≡◌, ◌≢◌, refl, [], ◌∷◌, none, some, arith}
use raccoon_ecs.Outcome.{Ptr, nullptr, ok}
use raccoon_ecs.ComponentPool.{
  next_free_slot, component, Heap, ComponentPool, slot_at, acquire_component, release_component,
  get_new_chunk_size, allocate_new_chunk,
}
use raccoon_ecs.ComponentPool.Slots.{KeepsUsed}
use raccoon_ecs.ComponentPool.Allocating.{IsValid}
use raccoon_ecs.ComponentPool.FreeList.{acquire_component_lem, release_component_lem}

-- A chunk of two slots, both in use.
abbrev full_pool : ComponentPool
full_pool = record {
  free_list = nullptr;
  chunks = 1 ∷ [];
  allocated_components_count = 2;
  default_chunk_size = 2;
  grow_strategy_fn = none;
}

abbrev full_heap : Heap ℕ
full_heap = component 40 ∷ component 41 ∷ []

full_pool-IsValid : IsValid full_pool full_heap
full_pool-IsValid = record { free = []; chain = refl; once = tt }

acquire_component_lem_example :
    (pool' : ComponentPool) × (h' : Heap ℕ) × (p : Ptr) × (acquire_component full_pool full_heap 42
      ≡ ok (pool', h', p))
    × IsValid pool' h'
    × (p ≢ nullptr)
    × ((u : ℕ) → slot_at full_heap p ≢ some (component u))
    × (slot_at h' p ≡ some (component 42))
    × KeepsUsed full_heap h'
unfolding get_new_chunk_size
acquire_component_lem_example =
    acquire_component_lem full_pool full_heap 42 full_pool-IsValid (λ _ e. omega (arith, e))

release_component_lem_example :
    (pool' : ComponentPool) × (h' : Heap ℕ) × (release_component full_pool full_heap 2
      ≡ ok (pool', h'))
    × IsValid pool' h'
    × (pool'.free_list ≡ 2)
    × (slot_at h' 2 ≡ some (next_free_slot nullptr))
    × ((q : Ptr) (u : ℕ)
        → 2 ≢ q
        → slot_at full_heap q ≡ some (component u)
        → slot_at h' q ≡ some (component u))
unfolding slot_at
release_component_lem_example =
    release_component_lem full_pool full_heap 2 41 full_pool-IsValid refl

abbrev new_pool : ComponentPool
new_pool = record {
  free_list = nullptr;
  chunks = [];
  allocated_components_count = 0;
  default_chunk_size = 256;
  grow_strategy_fn = none;
}

-- The first chunk for components of 16 bytes.
allocate_new_chunk_bounds_example :
    let n = get_new_chunk_size new_pool in
    (pool' : ComponentPool) × (h' : Heap ℕ) × (allocate_new_chunk new_pool full_heap
      ≡ ok (pool', h'))
    × (1 ≤ n)
    × (length h' ≡ length full_heap + n)
    × (pool'.allocated_components_count ≡ 0 + n)
    × (◌≡◌ {A = ℕ} 0 0 → (n ≤ 4096) × ((n ≡ 1) ⊎ (n * 16 ≤ 4096)))
    × (◌≢◌ {A = ℕ} 0 0 → pool'.allocated_components_count ≡ 3 * 0)
unfolding default_component_chunk_size
allocate_new_chunk_bounds_example =
    allocate_new_chunk_bounds 16 new_pool full_heap refl refl (omega arith)
