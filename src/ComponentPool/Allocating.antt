-- ===== src/ComponentPool/Allocating.antt =====
-- component_pool.h: the slots that are ready to be given out, also where a chunk is allocated.
use raccoon_ecs.Common.{
  false, ℕ, zero, suc, ◌+◌, ◌%◌, ◌^◌, ◌≡◌, ◌≢◌, refl, List, [], ◌∷◌, ◌++◌, length, arith, ◌==◌,
  if◌then◌else◌, elem, Unique, ℕ_discrete, eq-or-ne, inl, inr, ap, sym, ◌∙◌, subst, ◌⊎◌, true, none,
}
use raccoon_ecs.Outcome.{Ptr, nullptr, ok}
use raccoon_ecs.ComponentPool.{
  Heap, ComponentPool, get_new_chunk_size, linked_slots, slot_at, allocate_new_chunk,
}
use raccoon_ecs.ComponentPool.Slots.{
  Chain, KeepsFree, slot_at-append_cases, length-linked_slots, KeepsSlots, KeepsSlots-append,
  AddsNone, AddsNone-linked_slots, slot_at_beyond, elem-pointers_from, pointers_from,
  Chain-linked_slots, Unique-pointers_from,
}

suc_of_ne : (n : ℕ) → n ≢ 0 → (m : ℕ) × (n ≡ suc m)
suc_of_ne zero ne = absurd (ne refl)
suc_of_ne (suc m) ne = (m, refl)

module _ {V : Type 0} where
  pub record IsValid (pool : ComponentPool) (h : Heap V) : Type 0 where
    pub free : List Ptr
    pub chain : Chain h pool.free_list free
    pub once : Unique ℕ_discrete free

  -- A pool and a heap that are ready for `acquireComponent`, from a heap and the free slots before: the
  -- free slots now are those before, or new ones.
  pub record Ready (h : Heap V) (free : List Ptr) (pool' : ComponentPool) (h' : Heap V)
      : Type 0 where
    pub rest : List Ptr
    pub chain : Chain h' pool'.free_list (pool'.free_list ∷ rest)
    pub once : Unique ℕ_discrete (pool'.free_list ∷ rest)
    pub real : pool'.free_list ≢ nullptr
    pub fresh :
        (x : Ptr)
        → elem ℕ_discrete x (pool'.free_list ∷ rest) ≡ true
        → (elem ℕ_discrete x free ≡ true) ⊎ (slot_at h x ≡ none)
    pub kept : KeepsSlots h h'
    pub none_added : AddsNone h h'
    pub listed : KeepsFree h free h' (pool'.free_list ∷ rest)

  pub allocated-Ready :
      (pool : ComponentPool) (h : Heap V) (free : List Ptr)
      → pool.free_list ≡ nullptr
      → ((x : Ptr) → elem ℕ_discrete x free ≡ false)
      → get_new_chunk_size pool ≢ 0
      → (pool' : ComponentPool) × (h' : Heap V) × (allocate_new_chunk pool h ≡ ok (pool', h'))
        × Ready h free pool' h'
        × (pool'.free_list ≡ length h + 1)
        × (pool'.chunks ≡ pool.chunks ++ pool'.free_list ∷ [])
  unfolding allocate_new_chunk
  allocated-Ready pool h free empty none_free some_size =
      let n = get_new_chunk_size pool in
      let p = length h + 1 in
      let (m, size) = suc_of_ne n some_size in
      let slots : linked_slots {V = V} p n pool.free_list ≡ linked_slots p (suc m) nullptr =
        ap (λ k. linked_slots p k pool.free_list) size ∙ ap (linked_slots p (suc m)) empty in
      (
        record pool {
          free_list = p;
          chunks = pool.chunks ++ p ∷ [];
          allocated_components_count = (pool.allocated_components_count + n) % 2 ^ 64;
        },
        h ++ linked_slots p n pool.free_list,
        ground (arith, some_size),
        record {
          rest = pointers_from (p + 1) m;
          chain =
              subst (λ more. Chain (h ++ more) p (pointers_from p (suc m))) (sym slots)
                (Chain-linked_slots h p m (omega arith));
          once = Unique-pointers_from p (suc m);
          real = λ e. omega arith;
          fresh =
              λ x e. inr (slot_at_beyond h x (ground (arith, elem-pointers_from p (suc m) x, e)));
          kept = KeepsSlots-append h (linked_slots p n pool.free_list);
          none_added = AddsNone-linked_slots h p n pool.free_list;
          listed = λ x next e.
              elim (slot_at-append_cases h (linked_slots p n pool.free_list) x _ e) [
                | inl old ↦ inr (next, old, λ f. absurd (ground (arith, none_free x, f)))
                | inr (after, before) ↦
                    let l = length-linked_slots V p n pool.free_list in
                    inl (ground (arith, elem-pointers_from p (suc m) x, after, before, l, size))
              ];
        },
        refl,
        refl,
      )

  null_free :
      (h : Heap V) (p : Ptr) (free : List Ptr)
      → Chain h p free
      → p ≡ nullptr
      → (x : Ptr) → elem ℕ_discrete x free ≡ false
  unfolding elem slot_at
  null_free h p [] chain empty x = refl
  null_free h p (q ∷ qs) (same, next, at, c) empty x =
      let null : q ≡ 0 = sym same ∙ empty in absurd (ground (arith, ap (slot_at h) null, at))

  valid-Ready :
      (pool : ComponentPool) (h : Heap V) (free : List Ptr)
      → Chain h pool.free_list free
      → Unique ℕ_discrete free
      → pool.free_list ≢ nullptr
      → Ready h free pool h
  valid-Ready pool h [] chain once real = absurd (real chain)
  valid-Ready pool h (q ∷ qs) (same, next, at, c) once real = record {
    rest = qs;
    chain = (refl, next, ap (slot_at h) same ∙ at, c);
    once = (ap (λ x. elem ℕ_discrete x qs) same ∙ once.0, once.1);
    real = real;
    fresh = λ x e. inl (ap (λ y. elem ℕ_discrete x (y ∷ qs)) (sym same) ∙ e);
    kept = λ r slot e. e;
    none_added = λ r u e. e;
    listed = λ x next e. inr (next, e, λ f. ap (λ y. elem ℕ_discrete x (y ∷ qs)) same ∙ f);
  }

  -- The pointer that the pool gives out: the head of its free list, or the start of its next chunk.
  abbrev pub Takes : ComponentPool → Heap V → Ptr → ComponentPool → Type 0
  Takes pool h p pool' =
      (pool.free_list ≢ nullptr → (p ≡ pool.free_list) × (pool'.chunks ≡ pool.chunks))
      × (pool.free_list ≡ nullptr → (p ≡ length h + 1) × (pool'.chunks ≡ pool.chunks ++ p ∷ []))

  pub ready :
      (pool : ComponentPool) (h : Heap V) (free : List Ptr)
      → Chain h pool.free_list free
      → Unique ℕ_discrete free
      → (pool.free_list ≡ nullptr → get_new_chunk_size pool ≢ 0)
      → (pool' : ComponentPool) × (h' : Heap V) × ((if pool.free_list == nullptr
            then allocate_new_chunk pool h
            else ok (pool, h))
          ≡ ok (pool', h'))
        × Ready h free pool' h'
        × Takes pool h pool'.free_list pool'
  ready pool h free chain once some_size = elim (eq-or-ne pool.free_list nullptr) [
    | inl empty ↦
        let (pool', h', done, r, start, chunk) =
          allocated-Ready pool h free empty (null_free h pool.free_list free chain empty)
            (some_size empty) in
        (
          pool',
          h',
          ground (arith, empty, done),
          r,
          (λ real. absurd (real empty), λ _. (start, chunk)),
        )
    | inr real ↦ (
      pool,
      h,
      ground (arith, real),
      valid-Ready pool h free chain once real,
      (λ _. (refl, refl), λ empty. absurd (real empty)),
    )
  ]
