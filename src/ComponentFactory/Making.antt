-- ===== src/ComponentFactory/Making.antt =====
-- component_factory.h: a component is created in a pool and deleted from it.
use raccoon_ecs.Common.{
  ℕ, ◌≡◌, ◌≢◌, refl, true, false, ◌∷◌, some, length, arith, get_elem?, set, elem, ℕ_discrete,
  eq-or-ne, inl, inr, ap, ◌∙◌, find, length-set,
}
use raccoon_ecs.Outcome.{Ptr, nullptr}
use raccoon_ecs.TypeId.{TypeId}
use raccoon_ecs.ComponentPool.{component, ComponentPool, slot_at}
use raccoon_ecs.ComponentPool.Slots.{KeepsUsed, AddsNone}
use raccoon_ecs.ComponentPool.Allocating.{Takes}
use raccoon_ecs.ComponentPool.FreeList.{
  acquire_component-Acquired, release_component-Released, unused-of_fresh,
}
use raccoon_ecs.ComponentFactory.Sound.{
  IsUsed, HasSpace, IsSound, used_in_none, missing_in_none, changed-IsSound,
}
use raccoon_ecs.ComponentFactory.{Memory, acquire_from, release_to}

module _ {K V : Type 0} (T : TypeId K) (m : Memory K V) where
  -- The component is from the pool of this number: from the head of its free list, or the start of its
  -- next chunk; the other pools are as before.
  abbrev pub FromPool : ℕ → Ptr → Memory K V → Type 0
  FromPool i p m' =
      (pool : ComponentPool) × (pool' : ComponentPool) × (get_elem? m.component_pools i ≡ some pool)
      × (m'.component_pools ≡ set m.component_pools i pool')
      × Takes pool m.heap p pool'

  -- What the creation of a component in the pool of this number leaves.
  pub record Created (i : ℕ) (v : V) (p : Ptr) (m' : Memory K V) : Type 0 where
    pub sound : IsSound T m'
    pub real : p ≢ nullptr
    pub unused : (u : V) → slot_at m.heap p ≢ some (component u)
    pub here : slot_at m'.heap p ≡ some (component v)
    pub kept : KeepsUsed m.heap m'.heap
    pub none_added :
        (q : Ptr) (u : V)
        → p ≢ q
        → slot_at m'.heap q ≡ some (component u)
        → slot_at m.heap q ≡ some (component u)
    pub same_statics : m'.statics ≡ m.statics
    pub same_pools : length m'.component_pools ≡ length m.component_pools
    pub from_pool : FromPool i p m'

  -- What the deletion of a component leaves.
  pub record Deleted (p : Ptr) (m' : Memory K V) : Type 0 where
    pub sound : IsSound T m'
    pub gone : (u : V) → slot_at m'.heap p ≢ some (component u)
    pub kept :
        (q : Ptr) (u : V)
        → p ≢ q
        → slot_at m.heap q ≡ some (component u)
        → slot_at m'.heap q ≡ some (component u)
    pub none_added : AddsNone m.heap m'.heap
    pub same_statics : m'.statics ≡ m.statics
    pub same_pools : length m'.component_pools ≡ length m.component_pools

module _ {K V : Type 0} (T : TypeId K) (m : Memory K V) (s : IsSound T m) where
  pub acquire_from-Created :
      (i : ℕ) (v : V)
      → HasSpace m i
      → (p : Ptr) × (m' : Memory K V) × (acquire_from i v m ≡ (p, m')) × Created T m i v p m'
  unfolding acquire_from elem
  acquire_from-Created i v (pool, at, some_size) =
      let (chain, once) = s.chains i pool at in
      let a = acquire_component-Acquired pool m.heap v (s.frees i) chain once some_size in
      let p = a.pointer in
      let fresh : (x : Ptr)
          → elem ℕ_discrete x (p ∷ a.free') ≡ true
          → (j : ℕ) → elem ℕ_discrete x (s.frees j) ≡ true
          → i ≡ j =
        λ x e j f. elim (a.fresh x e) [
          | inl here ↦ s.apart i j x here f
          | inr missing ↦ absurd (ground (arith, missing_in_none T m s x j missing, f))
        ] in
      let p_first : elem ℕ_discrete p (p ∷ a.free') ≡ true = ground arith in
      let unused : (u : V) → slot_at m.heap p ≢ some (component u) =
        λ u. unused-of_fresh m.heap pool.free_list p (s.frees i) u chain (a.fresh p p_first) in
      (
        p,
        record m { heap = a.heap'; component_pools = set m.component_pools i a.pool' },
        ground (arith, at, a.done),
        record {
          sound =
              changed-IsSound T m s i pool a.pool' a.heap' p a.free' at a.chain a.once.1
                (λ x e. fresh x (ground (arith, e))) a.kept (fresh p p_first)
                (λ k e. let (u, used) = s.statics_used k p e in unused u used) a.listed;
          real = a.real;
          unused = unused;
          here = a.here;
          kept = λ q u used.
              a.kept q (component u) (λ e. unused u (ap (slot_at m.heap) e ∙ used)) used;
          none_added = a.none_added;
          same_statics = refl;
          same_pools = length-set m.component_pools i a.pool';
          from_pool = (pool, a.pool', at, refl, a.takes);
        },
      )

  pub release_to-Deleted :
      (i : ℕ) (pool : ComponentPool) (p : Ptr)
      → get_elem? m.component_pools i ≡ some pool
      → IsUsed m p
      → ((k : K) → find T.eq k m.statics ≢ some p)
      → Deleted T m p (release_to i p m)
  unfolding release_to elem
  release_to-Deleted i pool p at (v, used) not_static =
      let (chain, once) = s.chains i pool at in
      let r = release_component-Released pool m.heap p v (s.frees i) chain once used in
      let out : (j : ℕ) → elem ℕ_discrete p (s.frees j) ≡ false =
        λ j. used_in_none T m s p j (v, used) in
      let fresh : (x : Ptr)
          → elem ℕ_discrete x (p ∷ s.frees i) ≡ true
          → (j : ℕ) → elem ℕ_discrete x (s.frees j) ≡ true
          → i ≡ j =
        λ x e j f. elim (eq-or-ne p x) [
          | inl same ↦
              absurd (ground (arith, ap (λ y. elem ℕ_discrete y (s.frees j)) same, out j, f))
          | inr ne ↦ s.apart i j x (ground (arith, e, ne)) f
        ] in
      let done : release_to i p m
          ≡ record m { heap = r.heap'; component_pools = set m.component_pools i r.pool' } =
        ground (arith, at, r.done) in
      rw done (record {
        sound =
            changed-IsSound T m s i pool r.pool' r.heap' p (p ∷ s.frees i) at r.chain r.once fresh
              r.kept (λ j f. absurd (ground (arith, out j, f))) not_static r.listed;
        gone = λ u e. ground (arith, r.here, e);
        kept = λ q u ne e. r.kept q (component u) ne e;
        none_added = r.none_added;
        same_statics = refl;
        same_pools = length-set m.component_pools i r.pool';
      })
