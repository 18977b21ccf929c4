-- ===== src/ComponentPool/Growth.antt =====
-- component_pool.h and component_factory.h: how large the chunks of a pool are.
use native.Mathlib.Nat.{div-mul-le_self, div-le_self}
use raccoon_ecs.Common.{
  ℕ, refl, ap, ◌≢◌, ◌∙◌, [], ◌∷◌, ◌++◌, length, length-append, Bool-cases, ◌+◌, ◌*◌, ◌/◌, ◌%◌, ◌^◌,
  ◌≤◌, ◌<◌, ◌≡◌, ◌⊎◌, inl, inr, none, arith, ltb, eq-or-ne,
}
use raccoon_ecs.Outcome.{ok}
use raccoon_ecs.ComponentPool.{
  Heap, linked_slots, allocate_new_chunk, ComponentPool, get_new_chunk_size,
}
use raccoon_ecs.ComponentPool.Slots.{length-linked_slots}
use raccoon_ecs.ComponentFactory.{default_component_chunk_size}

-- The default chunk size: at least 1, and so many components fit into 4096 bytes if it is more.
chunk_size_bounds :
    (size : ℕ)
    → (1 ≤ default_component_chunk_size size)
      × (default_component_chunk_size size ≤ 4096)
      × ((default_component_chunk_size size ≡ 1)
          ⊎ (default_component_chunk_size size * size ≤ 4096))
unfolding default_component_chunk_size
chunk_size_bounds size =
    let n = 4096 / size in
    elim (Bool-cases (ltb 1 n)) [
      | inl more ↦
          let le : n ≤ 4096 = div-le_self 4096 size in
          let bytes : n * size ≤ 4096 = div-mul-le_self 4096 size in
          rw more (ground arith, le, inr bytes)
      | inr one ↦ rw one (omega arith, omega arith, inl refl)
    ]

-- A pool of the default chunk size for components of `size` bytes, without a strategy, with fewer than
-- 2 ^ 62 slots, gets its next chunk: the heap and the count of the pool grow by its number of slots,
-- which is at least 1. The first chunk has just one slot, or at most 4096, whose components take at
-- most 4096 bytes (a slot is no smaller than a pointer, so the chunk may be larger than its
-- components); each later one makes the pool three times as large. Nothing wraps around.
pub allocate_new_chunk_bounds :
    {A : Type 0} (size : ℕ) (pool : ComponentPool) (h : Heap A)
    → pool.default_chunk_size ≡ default_component_chunk_size size
    → pool.grow_strategy_fn ≡ none
    → pool.allocated_components_count < 2 ^ 62
    → let n = get_new_chunk_size pool in
      (pool' : ComponentPool) × (h' : Heap A) × (allocate_new_chunk pool h ≡ ok (pool', h'))
      × (1 ≤ n)
      × (length h' ≡ length h + n)
      × (pool'.allocated_components_count ≡ pool.allocated_components_count + n)
      × (pool.allocated_components_count ≡ 0 → (n ≤ 4096) × ((n ≡ 1) ⊎ (n * size ≤ 4096)))
      × (pool.allocated_components_count ≢ 0
          → pool'.allocated_components_count ≡ 3 * pool.allocated_components_count)
unfolding allocate_new_chunk
allocate_new_chunk_bounds {A} size pool h default no_strategy small =
    let n = get_new_chunk_size pool in
    let p = length h + 1 in
    let bounds = chunk_size_bounds size in
    let first : pool.allocated_components_count ≡ 0 → n ≡ default_component_chunk_size size =
      λ e. unfold get_new_chunk_size in ground (arith, e, default) in
    let later : pool.allocated_components_count ≢ 0 → n ≡ pool.allocated_components_count * 2 =
      λ ne. unfold get_new_chunk_size in ground (arith, ne, no_strategy, small) in
    let some_slots : 1 ≤ n = elim (eq-or-ne pool.allocated_components_count 0) [
      | inl e ↦ omega (arith, first e, bounds.0)
      | inr ne ↦ omega (arith, later ne, ne)
    ] in
    let fits : pool.allocated_components_count + n < 2 ^ 64 =
      elim (eq-or-ne pool.allocated_components_count 0) [
        | inl e ↦ omega (arith, e, first e, bounds.1)
        | inr ne ↦ omega (arith, later ne, small)
      ] in
    (
      record pool {
        free_list = p;
        chunks = pool.chunks ++ p ∷ [];
        allocated_components_count = (pool.allocated_components_count + n) % 2 ^ 64;
      },
      h ++ linked_slots p n pool.free_list,
      ground (arith, some_slots),
      some_slots,
      length-append h (linked_slots p n pool.free_list)
          ∙ ap (◌+◌ (length h)) (length-linked_slots A p n pool.free_list),
      omega (arith, fits),
      λ e. rw (first e) (bounds.1, bounds.2),
      λ ne. omega (arith, later ne, fits),
    )
