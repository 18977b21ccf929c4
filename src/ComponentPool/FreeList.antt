-- ===== src/ComponentPool/FreeList.antt =====
-- component_pool.h: no slot is given out while it is in use.
use raccoon_ecs.Common.{
  ◌≡◌, ◌≢◌, refl, List, ◌∷◌, some, arith, elem, Unique, ℕ_discrete, eq-or-ne, inl, inr, ap, ◌∙◌,
  ◌⊎◌, true, none,
}
use raccoon_ecs.Outcome.{Ptr, nullptr, ok}
use raccoon_ecs.ComponentPool.{
  Slot, next_free_slot, component, Heap, ComponentPool, get_new_chunk_size, slot_at, write, next_of,
  acquire_component, release_component,
}
use raccoon_ecs.ComponentPool.Slots.{
  Chain, KeepsUsed, KeepsFree, AddsNone, slot_of_free, Chain-write, used_not_free, slot_at-write,
}
use raccoon_ecs.ComponentPool.Allocating.{IsValid, Takes, ready}

module _ {V : Type 0} where
  -- What `acquireComponent` leaves, where other pools may have slots of the same heap.
  pub record Acquired (pool : ComponentPool) (h : Heap V) (v : V) (free : List Ptr) : Type 0 where
    pub pool' : ComponentPool
    pub heap' : Heap V
    pub pointer : Ptr
    pub free' : List Ptr
    pub done : acquire_component pool h v ≡ ok (pool', heap', pointer)
    pub chain : Chain heap' pool'.free_list free'
    pub once : Unique ℕ_discrete (pointer ∷ free')
    pub real : pointer ≢ nullptr
    pub fresh :
        (x : Ptr)
        → elem ℕ_discrete x (pointer ∷ free') ≡ true
        → (elem ℕ_discrete x free ≡ true) ⊎ (slot_at h x ≡ none)
    pub here : slot_at heap' pointer ≡ some (component v)
    pub kept :
        (q : Ptr) (slot : Slot V)
        → pointer ≢ q
        → slot_at h q ≡ some slot
        → slot_at heap' q ≡ some slot
    pub none_added :
        (q : Ptr) (u : V)
        → pointer ≢ q
        → slot_at heap' q ≡ some (component u)
        → slot_at h q ≡ some (component u)
    pub listed : KeepsFree h free heap' free'
    pub takes : Takes pool h pointer pool'

  pub acquire_component-Acquired :
      (pool : ComponentPool) (h : Heap V) (v : V) (free : List Ptr)
      → Chain h pool.free_list free
      → Unique ℕ_discrete free
      → (pool.free_list ≡ nullptr → get_new_chunk_size pool ≢ 0)
      → Acquired pool h v free
  unfolding acquire_component next_of elem
  acquire_component-Acquired pool h v free chain once some_size =
      let (pool1, h1, done, r, takes) = ready pool h free chain once some_size in
      let p = pool1.free_list in
      let (same, next, at, c) = r.chain in
      let next_done : next_of h1 p ≡ ok next = unfold next_of in ground (arith, at) in
      let after = λ (q : Ptr). slot_at-write h1 p q (next_free_slot next) (component v) at in
      record {
        pool' = record pool1 { free_list = next };
        heap' = write h1 p (component v);
        pointer = p;
        free' = r.rest;
        done = rw (done, next_done) refl;
        chain = Chain-write h1 p next r.rest (next_free_slot next) (component v) at r.once.0 c;
        once = r.once;
        real = r.real;
        fresh = r.fresh;
        here = ground (arith, after p);
        kept = λ q slot ne e. ground (arith, after q, ne, r.kept q slot e);
        none_added = λ q u ne e. r.none_added q u (ground (arith, after q, ne, e));
        listed = λ x link e.
            let ne : p ≢ x = λ here. ground (arith, after x, here, e) in
            elim (r.listed x link (ground (arith, after x, ne, e))) [
              | inl now ↦ inl (ground (arith, now, ne))
              | inr (old, there, stays) ↦ inr (old, there, λ f. ground (arith, stays f, ne))
            ];
        takes = takes;
      }

  -- A slot given out was to no component.
  pub unused-of_fresh :
      (h : Heap V) (p q : Ptr) (free : List Ptr) (u : V)
      → Chain h p free
      → (elem ℕ_discrete q free ≡ true) ⊎ (slot_at h q ≡ none)
      → slot_at h q ≢ some (component u)
  unused-of_fresh h p q free u chain (inl is_free) used =
      let (next, at) = slot_of_free h p q free chain is_free in ground (arith, at, used)
  unused-of_fresh h p q free u chain (inr missing) used = ground (arith, missing, used)

  -- On a valid pool, whose next chunk has at least one slot if it needs one, `acquireComponent` returns
  -- a pointer that is not null and was to no component in use; it leads to the new component, every
  -- component in use stays in its slot, and the pool stays valid.
  pub acquire_component_lem :
      (pool : ComponentPool) (h : Heap V) (v : V)
      → IsValid pool h
      → (pool.free_list ≡ nullptr → get_new_chunk_size pool ≢ 0)
      → (pool' : ComponentPool) × (h' : Heap V) × (p : Ptr) × (acquire_component pool h v
          ≡ ok (pool', h', p))
        × IsValid pool' h'
        × (p ≢ nullptr)
        × ((u : V) → slot_at h p ≢ some (component u))
        × (slot_at h' p ≡ some (component v))
        × KeepsUsed h h'
  unfolding elem
  acquire_component_lem pool h v valid some_size =
      let a = acquire_component-Acquired pool h v valid.free valid.chain valid.once some_size in
      let unused : (u : V) → slot_at h a.pointer ≢ some (component u) = λ u.
        unused-of_fresh h pool.free_list a.pointer valid.free u valid.chain
          (a.fresh a.pointer (ground arith)) in
      (
        a.pool',
        a.heap',
        a.pointer,
        a.done,
        record { free = a.free'; chain = a.chain; once = a.once.1 },
        a.real,
        unused,
        a.here,
        λ q u used. a.kept q (component u) (λ e. unused u (ap (slot_at h) e ∙ used)) used,
      )

  -- What `releaseComponent` leaves, where other pools may have slots of the same heap.
  pub record Released (pool : ComponentPool) (h : Heap V) (p : Ptr) (free : List Ptr) : Type 0 where
    pub pool' : ComponentPool
    pub heap' : Heap V
    pub done : release_component pool h p ≡ ok (pool', heap')
    pub chain : Chain heap' pool'.free_list (p ∷ free)
    pub once : Unique ℕ_discrete (p ∷ free)
    pub here : slot_at heap' p ≡ some (next_free_slot pool.free_list)
    pub kept :
        (q : Ptr) (slot : Slot V) → p ≢ q → slot_at h q ≡ some slot → slot_at heap' q ≡ some slot
    pub none_added : AddsNone h heap'
    pub listed : KeepsFree h free heap' (p ∷ free)
    pub head : pool'.free_list ≡ p

  pub release_component-Released :
      (pool : ComponentPool) (h : Heap V) (p : Ptr) (v : V) (free : List Ptr)
      → Chain h pool.free_list free
      → Unique ℕ_discrete free
      → slot_at h p ≡ some (component v)
      → Released pool h p free
  unfolding release_component elem
  release_component-Released pool h p v free chain once used =
      let out = used_not_free h p pool.free_list free v used chain in
      let slot = next_free_slot pool.free_list in
      let after = λ (q : Ptr). slot_at-write h p q (component v) slot used in
      record {
        pool' = record pool { free_list = p };
        heap' = write h p slot;
        done = ground (arith, used);
        chain = (
          refl,
          pool.free_list,
          ground (arith, after p),
          Chain-write h p pool.free_list free (component v) slot used out chain,
        );
        once = (out, once);
        here = ground (arith, after p);
        kept = λ q other ne e. ground (arith, after q, ne, e);
        none_added = λ q u e. ground (arith, after q, e);
        listed = λ x link e. elim (eq-or-ne p x) [
          | inl here ↦ inl (ground (arith, here))
          | inr ne ↦ inr (link, ground (arith, after x, ne, e), λ f. ground (arith, f))
        ];
        head = refl;
      }

  -- On a valid pool `releaseComponent` of a pointer to a component in use returns and leaves a valid
  -- pool: the slot is the head of its free list, linked to the head from before, and every other
  -- component in use stays in its slot.
  pub release_component_lem :
      (pool : ComponentPool) (h : Heap V) (p : Ptr) (v : V)
      → IsValid pool h
      → slot_at h p ≡ some (component v)
      → (pool' : ComponentPool) × (h' : Heap V) × (release_component pool h p ≡ ok (pool', h'))
        × IsValid pool' h'
        × (pool'.free_list ≡ p)
        × (slot_at h' p ≡ some (next_free_slot pool.free_list))
        × ((q : Ptr) (u : V)
            → p ≢ q
            → slot_at h q ≡ some (component u)
            → slot_at h' q ≡ some (component u))
  release_component_lem pool h p v valid used =
      let r = release_component-Released pool h p v valid.free valid.chain valid.once used in
      (
        r.pool',
        r.heap',
        r.done,
        record { free = p ∷ valid.free; chain = r.chain; once = r.once },
        r.head,
        r.here,
        λ q u ne other. r.kept q (component u) ne other,
      )
