-- ===== src/ComponentFactory/Sound.antt =====
-- component_factory.h: the pools of all component types share one heap without disturbing each other.
use raccoon_ecs.Common.{
  zero, suc, ℕ, ◌≡◌, ◌≢◌, refl, true, false, List, [], none, some, arith, get_elem?, set, ◌==◌,
  if◌then◌else◌, elem, Unique, ℕ_discrete, eq-or-ne, inl, inr, ap, sym, ◌∙◌, ◌⊎◌, find,
  get_elem?-set, lt-of-get_elem?, Bool-cases,
}
use raccoon_ecs.Outcome.{Ptr, nullptr}
use raccoon_ecs.TypeId.{TypeId}
use raccoon_ecs.ComponentPool.{
  Slot, next_free_slot, component, Heap, ComponentPool, get_new_chunk_size, slot_at,
}
use raccoon_ecs.ComponentPool.Slots.{KeepsFree, Chain, Chain-kept, slot_of_free}
use raccoon_ecs.ComponentFactory.{Maker, flag, pooled, Memory, new_memory}

module _ {K V : Type 0} where
  abbrev pub IsUsed : Memory K V → Ptr → Type 0
  IsUsed m p = (v : V) × (slot_at m.heap p ≡ some (component v))

  -- A pool of this number is there, and it has a free slot or its next chunk gets one.
  abbrev pub HasSpace : Memory K V → ℕ → Type 0
  HasSpace m i =
      (pool : ComponentPool) × (get_elem? m.component_pools i ≡ some pool)
      × (pool.free_list ≡ nullptr → get_new_chunk_size pool ≢ 0)

  -- The pool that the closure uses has a slot to give.
  abbrev pub HasSpaceFor : Maker → Memory K V → Type 0
  HasSpaceFor flag m = Unit
  HasSpaceFor (pooled i) m = HasSpace m i

  pub used_real : (m : Memory K V) (p : Ptr) → IsUsed m p → p ≢ nullptr
  unfolding slot_at
  used_real m p (v, used) e = ground (arith, used, ap (slot_at m.heap) e)

module _ {K V : Type 0} (T : TypeId K) where
  -- No closure went wrong; the free lists of the pools are sound, and no slot is in two of them; the
  -- static components are in their slots; each slot without a component is in some free list.
  pub record IsSound (m : Memory K V) : Type 0 where
    pub frees : ℕ → List Ptr
    pub intact : m.corrupted ≡ false
    pub chains :
        (i : ℕ) (pool : ComponentPool)
        → get_elem? m.component_pools i ≡ some pool
        → Chain m.heap pool.free_list (frees i) × Unique ℕ_discrete (frees i)
    pub apart :
        (i j : ℕ) (x : Ptr)
        → elem ℕ_discrete x (frees i) ≡ true
        → elem ℕ_discrete x (frees j) ≡ true
        → i ≡ j
    pub in_range :
        (i : ℕ) (x : Ptr)
        → elem ℕ_discrete x (frees i) ≡ true
        → (pool : ComponentPool) × (get_elem? m.component_pools i ≡ some pool)
    pub statics_used : (k : K) (p : Ptr) → find T.eq k m.statics ≡ some p → IsUsed m p
    pub none_lost :
        (x next : Ptr)
        → slot_at m.heap x ≡ some (next_free_slot next)
        → (i : ℕ) × (elem ℕ_discrete x (frees i) ≡ true)

  no_slot :
      (x next : Ptr)
      → slot_at {V = V} [] x ≡ some (next_free_slot next)
      → (i : ℕ) × (elem ℕ_discrete x [] ≡ true)
  unfolding slot_at
  no_slot zero next e = absurd (ground (arith, e))
  no_slot (suc i) next e = absurd (ground (arith, e))

  pub new_memory-IsSound : IsSound new_memory
  unfolding new_memory find elem
  new_memory-IsSound = record {
    frees = λ i. [];
    intact = refl;
    chains = λ i pool e. absurd (ground (arith, e));
    apart = λ i j x e. absurd (ground (arith, e));
    in_range = λ i x e. absurd (ground (arith, e));
    statics_used = λ k p e. absurd (ground (arith, e));
    none_lost = no_slot;
  }

module _ {K V : Type 0} (T : TypeId K) (m : Memory K V) (s : IsSound T m) where
  -- Each free slot is a link.
  free_slot :
      (j : ℕ) (x : Ptr)
      → elem ℕ_discrete x (s.frees j) ≡ true
      → (next : Ptr) × (slot_at m.heap x ≡ some (next_free_slot next))
  free_slot j x is_free =
      let (pool, at) = s.in_range j x is_free in
      slot_of_free m.heap pool.free_list x (s.frees j) (s.chains j pool at).0 is_free

  pub used_in_none : (p : Ptr) (j : ℕ) → IsUsed m p → elem ℕ_discrete p (s.frees j) ≡ false
  used_in_none p j (v, used) = elim (Bool-cases (elem ℕ_discrete p (s.frees j))) [
    | inl is_free ↦ let (next, at) = free_slot j p is_free in absurd (ground (arith, at, used))
    | inr out ↦ out
  ]

  pub missing_in_none :
      (p : Ptr) (j : ℕ) → slot_at m.heap p ≡ none → elem ℕ_discrete p (s.frees j) ≡ false
  missing_in_none p j missing = elim (Bool-cases (elem ℕ_discrete p (s.frees j))) [
    | inl is_free ↦ let (next, at) = free_slot j p is_free in absurd (ground (arith, at, missing))
    | inr out ↦ out
  ]

  -- A pool changes its free list, and one slot of the heap changes that is of no other pool.
  module _ (i : ℕ) (pool pool' : ComponentPool) (heap' : Heap V) (p : Ptr) (free' : List Ptr)
      (at : get_elem? m.component_pools i ≡ some pool) (chain : Chain heap' pool'.free_list free')
      (once : Unique ℕ_discrete free')
      (fresh : (x : Ptr)
        → elem ℕ_discrete x free' ≡ true
        → (j : ℕ) → elem ℕ_discrete x (s.frees j) ≡ true
        → i ≡ j)
      (kept : (q : Ptr) (slot : Slot V)
        → p ≢ q
        → slot_at m.heap q ≡ some slot
        → slot_at heap' q ≡ some slot)
      (own : (j : ℕ) → elem ℕ_discrete p (s.frees j) ≡ true → i ≡ j)
      (not_static : (k : K) → find T.eq k m.statics ≢ some p)
      (listed : KeepsFree m.heap (s.frees i) heap' free') where
    pools' :
        (j : ℕ)
        → get_elem? (set m.component_pools i pool') j
          ≡ (if i == j then some pool' else get_elem? m.component_pools j)
    pools' j =
        get_elem?-set m.component_pools i j pool' (lt-of-get_elem? m.component_pools i pool at)

    frees' : ℕ → List Ptr
    frees' j = if i == j then free' else s.frees j

    frees'_cases :
        (j : ℕ) (x : Ptr)
        → elem ℕ_discrete x (frees' j) ≡ true
        → ((i ≡ j) × (elem ℕ_discrete x free' ≡ true))
          ⊎ ((i ≢ j) × (elem ℕ_discrete x (s.frees j) ≡ true))
    unfolding frees'
    frees'_cases j x e = elim (eq-or-ne i j) [
      | inl same ↦ inl (same, ground (arith, same, e))
      | inr ne ↦ inr (ne, ground (arith, ne, e))
    ]

    apart' :
        (j l : ℕ) (x : Ptr)
        → elem ℕ_discrete x (frees' j) ≡ true
        → elem ℕ_discrete x (frees' l) ≡ true
        → j ≡ l
    apart' j l x ej el = elim (frees'_cases j x ej) [
      | inl r ↦ elim (frees'_cases l x el) [
        | inl t ↦ sym r.0 ∙ t.0
        | inr t ↦ absurd (t.0 (fresh x r.1 l t.1))
      ]
      | inr r ↦ elim (frees'_cases l x el) [
        | inl t ↦ absurd (r.0 (fresh x t.1 j r.1))
        | inr t ↦ s.apart j l x r.1 t.1
      ]
    ]

    in_range' :
        (j : ℕ) (x : Ptr)
        → elem ℕ_discrete x (frees' j) ≡ true
        → (other : ComponentPool) × (get_elem? (set m.component_pools i pool') j ≡ some other)
    in_range' j x e = elim (frees'_cases j x e) [
      | inl (same, f) ↦ (pool', ground (arith, pools' j, same))
      | inr (ne, f) ↦
          let (other, there) = s.in_range j x f in (other, ground (arith, pools' j, ne, there))
    ]

    abbrev pub changed : Memory K V
    changed = record m { heap = heap'; component_pools = set m.component_pools i pool' }

    chains' :
        (j : ℕ) (other : ComponentPool)
        → get_elem? (set m.component_pools i pool') j ≡ some other
        → Chain heap' other.free_list (frees' j) × Unique ℕ_discrete (frees' j)
    chains' j other e = elim (eq-or-ne i j) [
      | inl same ↦
          let this : other ≡ pool' = ground (arith, pools' j, same, e) in
          let f : frees' j ≡ free' = unfold frees' in ground (arith, same) in
          rw (this, f) (chain, once)
      | inr ne ↦
          let f : frees' j ≡ s.frees j = unfold frees' in ground (arith, ne) in
          let (chain_j, once_j) = s.chains j other (ground (arith, pools' j, ne, e)) in
          rw f (
            Chain-kept m.heap heap' other.free_list (s.frees j)
                (λ q slot is_free.
                  kept q slot
                    (λ e'. ne (own j (ap (λ x. elem ℕ_discrete x (s.frees j)) e' ∙ is_free))))
                chain_j,
            once_j,
          )
    ]

    none_lost' :
        (x next : Ptr)
        → slot_at heap' x ≡ some (next_free_slot next)
        → (j : ℕ) × (elem ℕ_discrete x (frees' j) ≡ true)
    unfolding frees'
    none_lost' x next e = elim (listed x next e) [
      | inl now ↦ (i, ground (arith, now))
      | inr (old, there, stays) ↦
          let (j, f) = s.none_lost x old there in
          elim (eq-or-ne i j) [
            | inl same ↦
                let f_i : elem ℕ_discrete x (s.frees i) ≡ true = rw same f in
                (i, ground (arith, stays f_i))
            | inr ne ↦ (j, ground (arith, ne, f))
          ]
    ]

    pub changed-IsSound : IsSound T changed
    changed-IsSound = record {
      frees = frees';
      intact = s.intact;
      chains = chains';
      apart = apart';
      in_range = in_range';
      statics_used = λ k q e.
          let (v, used) = s.statics_used k q e in
          (v, kept q (component v) (λ same. not_static k (e ∙ ap some (sym same))) used);
      none_lost = none_lost';
    }
