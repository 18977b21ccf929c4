-- ===== src/ComponentFactory/AddingPool.antt =====
-- component_factory.h: the memory with one pool more.
use raccoon_ecs.Common.{
  lt-of-get_elem?, ℕ, ◌≡◌, ◌≢◌, true, List, [], ◌∷◌, ◌++◌, none, some, length, arith, get_elem?,
  ◌==◌, if◌then◌else◌, inl, inr, sym, ◌∙◌, ◌⊎◌, elem, Unique, ℕ_discrete, get_elem?-push_back,
  eq-or-ne,
}
use raccoon_ecs.Outcome.{Ptr}
use raccoon_ecs.TypeId.{TypeId}
use raccoon_ecs.ComponentPool.{next_free_slot, component, Heap, ComponentPool, slot_at}
use raccoon_ecs.ComponentPool.Slots.{KeepsFree, Chain, Chain-kept, KeepsSlots}
use raccoon_ecs.ComponentFactory.{Memory}
use raccoon_ecs.ComponentFactory.Sound.{missing_in_none, IsSound}

module _ {K V : Type 0} (T : TypeId K) (m : Memory K V) (s : IsSound T m) (pool : ComponentPool)
    (heap' : Heap V) (free : List Ptr) (chain : Chain heap' pool.free_list free)
    (once : Unique ℕ_discrete free)
    (fresh : (x : Ptr) → elem ℕ_discrete x free ≡ true → slot_at m.heap x ≡ none)
    (kept : KeepsSlots m.heap heap') (listed : KeepsFree m.heap [] heap' free) where
  n : ℕ
  n = length m.component_pools

  unfoldable pub with_pool : Memory K V
  with_pool = record m { heap = heap'; component_pools = m.component_pools ++ pool ∷ [] }

  frees' : ℕ → List Ptr
  frees' j = if j == n then free else s.frees j

  frees'_cases :
      (j : ℕ) (x : Ptr)
      → elem ℕ_discrete x (frees' j) ≡ true
      → ((j ≡ n) × (elem ℕ_discrete x free ≡ true))
        ⊎ ((j ≢ n) × (elem ℕ_discrete x (s.frees j) ≡ true))
  unfolding frees'
  frees'_cases j x e = elim (eq-or-ne j n) [
    | inl same ↦ inl (same, ground (arith, same, e))
    | inr ne ↦ inr (ne, ground (arith, ne, e))
  ]

  -- A new slot is in no other free list.
  new_in_none :
      (x : Ptr) (j : ℕ) → elem ℕ_discrete x free ≡ true → elem ℕ_discrete x (s.frees j) ≡ true → ⊥
  new_in_none x j e f = ground (arith, missing_in_none T m s x j (fresh x e), f)

  pools' :
      (j : ℕ)
      → get_elem? (m.component_pools ++ pool ∷ []) j
        ≡ (if j == n then some pool else get_elem? m.component_pools j)
  unfolding n
  pools' = get_elem?-push_back m.component_pools pool

  chains' :
      (j : ℕ) (other : ComponentPool)
      → get_elem? (m.component_pools ++ pool ∷ []) j ≡ some other
      → Chain heap' other.free_list (frees' j) × Unique ℕ_discrete (frees' j)
  chains' j other e = elim (eq-or-ne j n) [
    | inl same ↦
        let this : other ≡ pool = ground (arith, pools' j, same, e) in
        let f : frees' j ≡ free = unfold frees' in ground (arith, same) in
        rw (this, f) (chain, once)
    | inr ne ↦
        let f : frees' j ≡ s.frees j = unfold frees' in ground (arith, ne) in
        let (chain_j, once_j) = s.chains j other (ground (arith, pools' j, ne, e)) in
        rw f (
          Chain-kept m.heap heap' other.free_list (s.frees j) (λ q slot is_free. kept q slot)
              chain_j,
          once_j,
        )
  ]

  none_lost' :
      (x next : Ptr)
      → slot_at heap' x ≡ some (next_free_slot next)
      → (j : ℕ) × (elem ℕ_discrete x (frees' j) ≡ true)
  unfolding frees'
  none_lost' x next e = elim (listed x next e) [
    | inl now ↦ (n, ground (arith, now))
    | inr (old, there, stays) ↦
        let (j, f) = s.none_lost x old there in
        let (other, at) = s.in_range j x f in
        let lt = lt-of-get_elem? m.component_pools j other at in
        (j, unfold n in ground (arith, lt, f))
  ]

  -- One more pool, all of whose slots are new.
  pub with_pool-IsSound : IsSound T with_pool
  unfolding with_pool
  with_pool-IsSound = record {
    frees = frees';
    intact = s.intact;
    chains = chains';
    apart = λ i j x e f. elim (frees'_cases i x e) [
      | inl a ↦ elim (frees'_cases j x f) [
        | inl b ↦ a.0 ∙ sym b.0
        | inr b ↦ absurd (new_in_none x j a.1 b.1)
      ]
      | inr a ↦ elim (frees'_cases j x f) [
        | inl b ↦ absurd (new_in_none x i b.1 a.1)
        | inr b ↦ s.apart i j x a.1 b.1
      ]
    ];
    in_range = λ j x e. elim (frees'_cases j x e) [
      | inl a ↦ (pool, ground (arith, pools' j, a.0))
      | inr a ↦
          let (other, there) = s.in_range j x a.1 in (other, ground (arith, pools' j, a.0, there))
    ];
    statics_used = λ k p e. let (v, used) = s.statics_used k p e in (v, kept p (component v) used);
    none_lost = none_lost';
  }
