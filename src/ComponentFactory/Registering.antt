-- ===== src/ComponentFactory/Registering.antt =====
-- component_factory.h: `registerComponent`.
use raccoon_ecs.Common.{
  ℕ, suc, ◌<◌, ◌≤◌, put, ◌≡◌, ◌≢◌, refl, Bool, true, false, List, [], ◌∷◌, ◌++◌, Option, none, some,
  length, arith, inl, inr, ap, find, find-put, ite, elem, Unique, ℕ_discrete, get_elem?-push_back,
  length-append,
}
use raccoon_ecs.Outcome.{Ptr, nullptr, ok}
use raccoon_ecs.TypeId.{TypeId}
use raccoon_ecs.ComponentPool.{Heap, ComponentPool, get_new_chunk_size, slot_at, make_pool}
use raccoon_ecs.ComponentPool.Slots.{KeepsFree, Chain, KeepsSlots, AddsNone}
use raccoon_ecs.ComponentPool.Allocating.{allocated-Ready}
use raccoon_ecs.ComponentFactory.{
  Maker, flag, pooled, ComponentFactory, no_makers, Memory, with_maker, register_flag,
  register_component,
}
use raccoon_ecs.ComponentFactory.Sound.{HasSpace, IsSound}
use raccoon_ecs.ComponentFactory.Creating.{Fits}
use raccoon_ecs.ComponentFactory.AddingPool.{with_pool, with_pool-IsSound}

module _ {V : Type 0} where
  -- A pool that was just made, in a heap that is otherwise as before.
  record Fresh (h : Heap V) (pool : ComponentPool) (h' : Heap V) : Type 0 where
    free : List Ptr
    chain : Chain h' pool.free_list free
    once : Unique ℕ_discrete free
    fresh : (x : Ptr) → elem ℕ_discrete x free ≡ true → slot_at h x ≡ none
    kept : KeepsSlots h h'
    none_added : AddsNone h h'
    listed : KeepsFree h [] h' free
    space : pool.free_list ≡ nullptr → get_new_chunk_size pool ≢ 0

  make_pool-Fresh :
      (size : ℕ) (need_preallocate : Bool) (grow : Option (ℕ → ℕ)) (h : Heap V)
      → size ≢ 0
      → (pool : ComponentPool) × (h' : Heap V) × (make_pool size need_preallocate grow h
          ≡ ok (pool, h'))
        × Fresh h pool h'
  unfolding make_pool elem get_new_chunk_size
  make_pool-Fresh size false grow h some_size = (
    record {
      free_list = nullptr;
      chunks = [];
      allocated_components_count = 0;
      default_chunk_size = size;
      grow_strategy_fn = grow;
    },
    h,
    refl,
    record {
      free = [];
      chain = refl;
      once = tt;
      fresh = λ x e. absurd (ground (arith, e));
      kept = λ q slot e. e;
      none_added = λ q u e. e;
      listed = λ x next e. inr (next, e, λ f. f);
      space = λ _ e. some_size (ground (arith, e));
    },
  )
  make_pool-Fresh size true grow h some_size =
      let pool : ComponentPool = record {
        free_list = nullptr;
        chunks = [];
        allocated_components_count = 0;
        default_chunk_size = size;
        grow_strategy_fn = grow;
      } in
      let (pool', h', done, r, start, chunk) =
        allocated-Ready pool h [] refl (λ x. refl) (λ e. some_size (ground (arith, e))) in
      (
        pool',
        h',
        done,
        record {
          free = pool'.free_list ∷ r.rest;
          chain = r.chain;
          once = r.once;
          fresh = λ x e. elim (r.fresh x e) [
            | inl none_before ↦ absurd (ground (arith, none_before))
            | inr missing ↦ missing
          ];
          kept = r.kept;
          none_added = r.none_added;
          listed = r.listed;
          space = λ e. absurd (r.real e);
        },
      )

module _ {K V : Type 0} (T : TypeId K) (F : ComponentFactory K) (m : Memory K V) where
  -- What a registration leaves: a factory that has this maker for the type, and others as before.
  pub record Registered (k : K) (maker : Maker) (F' : ComponentFactory K) (m' : Memory K V)
      : Type 0 where
    pub sound : IsSound T m'
    pub fits : Fits T F' m'
    pub makers :
        (j : K)
        → find T.eq j F'.component_creators
          ≡ ite (T.eq k j) (some maker) (find T.eq j F.component_creators)
    pub kept : KeepsSlots m.heap m'.heap
    pub none_added : AddsNone m.heap m'.heap
    pub same_statics : m'.statics ≡ m.statics

module _ {K V : Type 0} (T : TypeId K) (F : ComponentFactory K) (m : Memory K V) (s : IsSound T m)
    (f : Fits T F m) where
  with_maker-Fits :
      (k : K) (maker : Maker) (m' : Memory K V)
      → length m.component_pools ≤ length m'.component_pools
      → ((i : ℕ) → maker ≡ pooled i → i < length m'.component_pools)
      → Fits T (with_maker T k maker F) m'
  unfolding with_maker
  with_maker-Fits k maker m' le inside = record {
    same_deleters = ap (put T.eq k maker) f.same_deleters;
    same_cloners = ap (put T.eq k maker) f.same_cloners;
    in_range = λ j i e. elim (T.eq k j) [
      | yes same ↦ inside i (ground (arith, find-put T.eq k j maker F.component_creators, same, e))
      | no ne ↦
          let lt =
            f.in_range j i (ground (arith, find-put T.eq k j maker F.component_creators, ne, e)) in
          omega (arith, lt, le)
    ];
  }

  -- A registration of a component type without data changes no memory: the factory has the flag for
  -- that type, other types as before, and fits the memory still.
  pub register_flag-Registered : (k : K) → Registered T F m k flag (register_flag T k F) m
  unfolding register_flag
  register_flag-Registered k = record {
    sound = s;
    fits = with_maker-Fits k flag m (omega arith) (λ i e. absurd (ground (arith, e)));
    makers = λ j. unfold with_maker in find-put T.eq k j flag F.component_creators;
    kept = λ q slot e. e;
    none_added = λ q u e. e;
    same_statics = refl;
  }

  -- On sound memory, for a default chunk size that is not 0, `registerComponent` of a component type
  -- with data returns, with or without preallocation: the factory has a new pool for that type, which
  -- has a slot to give, other types as before, and fits the memory; the memory is sound, its slots and
  -- its components are as before.
  pub register_component_lem :
      (k : K) (size : ℕ) (need_preallocate : Bool) (grow : Option (ℕ → ℕ))
      → size ≢ 0
      → (F' : ComponentFactory K) × (m' : Memory K V) × (register_component T k size
            need_preallocate grow F m
          ≡ ok (F', m'))
        × Registered T F m k (pooled (length m.component_pools)) F' m'
        × HasSpace m' (length m.component_pools)
  unfolding register_component
  register_component_lem k size need_preallocate grow some_size =
      let i = length m.component_pools in
      let (pool, h', made, fresh) = make_pool-Fresh size need_preallocate grow m.heap some_size in
      let m' = record m { heap = h'; component_pools = m.component_pools ++ pool ∷ [] } in
      let longer : length m'.component_pools ≡ suc i =
        let l = length-append m.component_pools (pool ∷ []) in omega (arith, l) in
      (
        with_maker T k (pooled i) F,
        m',
        rw made refl,
        record {
          sound =
              unfold with_pool in
              with_pool-IsSound T m s pool h' fresh.free fresh.chain fresh.once fresh.fresh
                fresh.kept fresh.listed;
          fits =
              with_maker-Fits k (pooled i) m' (omega (arith, longer))
                (λ j e. ground (arith, e, longer));
          makers = λ j. unfold with_maker in find-put T.eq k j (pooled i) F.component_creators;
          kept = fresh.kept;
          none_added = fresh.none_added;
          same_statics = refl;
        },
        (pool, ground (arith, get_elem?-push_back m.component_pools pool i), fresh.space),
      )

module _ {K V : Type 0} (T : TypeId K) where
  pub no_makers-Fits : (m : Memory K V) → Fits T no_makers m
  unfolding no_makers find
  no_makers-Fits m = record {
    same_deleters = refl;
    same_cloners = refl;
    in_range = λ k i e. absurd (ground (arith, e));
  }
