-- ===== src/ComponentFactory/Creating.antt =====
-- component_factory.h: what the closures of a factory do to its memory.
use raccoon_ecs.Common.{
  subst, ℕ, zero, suc, get_elem?-push_back, ◌+◌, ◌<◌, ◌≡◌, ◌≢◌, refl, [], ◌∷◌, ◌++◌, none, some,
  length, arith, ◌==◌, if◌then◌else◌, inl, inr, ap, sym, ◌∙◌, ◌⊎◌, find, Option-cases,
}
use raccoon_ecs.Outcome.{Ptr, nullptr, ok}
use raccoon_ecs.Env.{call_creator}
use raccoon_ecs.TypeId.{TypeId}
use raccoon_ecs.ComponentPool.{Slot, component, Heap, slot_at}
use raccoon_ecs.ComponentPool.Slots.{KeepsUsed, KeepsSlots-append, Chain-kept, slot_at_beyond}
use raccoon_ecs.ComponentFactory.{
  Maker, flag, pooled, ComponentFactory, Memory, static_component, create, create_component,
  get_creation_fn, factory_env,
}
use raccoon_ecs.ComponentFactory.Sound.{IsUsed, used_real, HasSpaceFor, IsSound}
use raccoon_ecs.ComponentFactory.Making.{FromPool, acquire_from-Created}

slot_at-push_back :
    {V : Type 0} (h : Heap V) (slot : Slot V) (q : Ptr)
    → slot_at (h ++ slot ∷ []) q ≡ (if q == length h + 1 then some slot else slot_at h q)
unfolding slot_at
slot_at-push_back h slot zero = ground arith
slot_at-push_back h slot (suc i) = ground (arith, get_elem?-push_back h slot i)

module _ {K V : Type 0} (T : TypeId K) where
  -- The maps of a factory have the same keys, and their closures have pools.
  pub record Fits (F : ComponentFactory K) (m : Memory K V) : Type 0 where
    pub same_deleters : F.component_deleters ≡ F.component_creators
    pub same_cloners : F.component_cloners ≡ F.component_creators
    pub in_range :
        (k : K) (i : ℕ)
        → find T.eq k F.component_creators ≡ some (pooled i)
        → i < length m.component_pools

  -- No static component is behind the pointer.
  abbrev pub NotStatic : Memory K V → Ptr → Type 0
  NotStatic m p = (k : K) → find T.eq k m.statics ≢ some p

module _ {K V : Type 0} (T : TypeId K) (default_component : K → V) (F : ComponentFactory K) where
  -- What a creation closure leaves.
  pub record Makes (m : Memory K V) (k : K) (p : Ptr) (m' : Memory K V) : Type 0 where
    pub sound : IsSound T m'
    pub real : p ≢ nullptr
    pub here : IsUsed m' p
    pub kept : KeepsUsed m.heap m'.heap
    pub none_added :
        (q : Ptr) (u : V)
        → p ≢ q
        → slot_at m'.heap q ≡ some (component u)
        → slot_at m.heap q ≡ some (component u)
    pub same_pools : length m'.component_pools ≡ length m.component_pools
    pub statics_kept :
        (j : K) (q : Ptr) → find T.eq j m.statics ≡ some q → find T.eq j m'.statics ≡ some q
    -- a static component that is new is in a new slot, and is that of the type
    pub statics_old :
        (j : K) (q : Ptr)
        → find T.eq j m'.statics ≡ some q
        → (find T.eq j m.statics ≡ some q) ⊎ (slot_at m.heap q ≡ none)
    -- a component in a pool is in a slot that was to no component, and is the default one; the slot is
    -- from the pool of the type
    pub in_pool :
        (i : ℕ)
        → find T.eq k F.component_creators ≡ some (pooled i)
        → NotStatic T m' p
          × ((u : V) → slot_at m.heap p ≢ some (component u))
          × (slot_at m'.heap p ≡ some (component (default_component k)))
          × FromPool T m i p m'
    -- the static component is always the same
    pub of_flag : find T.eq k F.component_creators ≡ some flag → find T.eq k m'.statics ≡ some p

module _ {K V : Type 0} (T : TypeId K) (default_component : K → V) (F : ComponentFactory K) (k : K)
    (m : Memory K V) (s : IsSound T m) where
  with_static : Memory K V
  with_static = record m {
    heap = m.heap ++ component (default_component k) ∷ [];
    statics = (k, length m.heap + 1) ∷ m.statics;
  }

  with_static-IsSound : IsSound T with_static
  unfolding with_static find
  with_static-IsSound =
      let kept = KeepsSlots-append m.heap (component (default_component k) ∷ []) in
      record {
        frees = s.frees;
        intact = s.intact;
        chains = λ i pool at.
            let (chain, once) = s.chains i pool at in
            (
              Chain-kept m.heap _ pool.free_list (s.frees i) (λ q slot e at'. kept q slot at')
                  chain,
              once,
            );
        none_lost = λ x next e.
            s.none_lost x next
              (ground (arith, slot_at-push_back m.heap (component (default_component k)) x, e));
        apart = s.apart;
        in_range = s.in_range;
        statics_used = λ j p e. elim (T.eq k j) [
          | no ne ↦
              let (v, used) = s.statics_used j p (ground (arith, e)) in
              (v, kept p (component v) used)
          | yes same ↦ (
            default_component k,
            ground (arith, e, slot_at-push_back m.heap (component (default_component k)) p),
          )
        ];
      }

  with_static-Makes :
      find T.eq k F.component_creators ≡ some flag
      → find T.eq k m.statics ≡ none
      → Makes T default_component F m k (length m.heap + 1) with_static
  with_static-Makes is_flag missing =
      let v = component (default_component k) in
      record {
        sound = with_static-IsSound;
        real = λ e. omega arith;
        here =
            unfold with_static in
            (default_component k, ground (arith, slot_at-push_back m.heap v (length m.heap + 1)));
        kept = unfold with_static in λ q u e. KeepsSlots-append m.heap (v ∷ []) q (component u) e;
        none_added =
            unfold with_static in λ q u ne e. ground (arith, slot_at-push_back m.heap v q, ne, e);
        same_pools = unfold with_static in refl;
        statics_kept = unfold with_static find in λ j q e. ground (arith, missing, e);
        statics_old =
            unfold with_static find in λ j q e. ground (arith, e, slot_at_beyond m.heap q);
        in_pool = λ i e. absurd (ground (arith, is_flag, e));
        of_flag = λ e. unfold with_static find in ground arith;
      }

  static_component-Makes :
      find T.eq k F.component_creators ≡ some flag
      → (p : Ptr) × (m' : Memory K V) × (static_component T default_component k m ≡ (p, m'))
        × Makes T default_component F m k p m'
  unfolding static_component
  static_component-Makes is_flag = elim (Option-cases (find T.eq k m.statics)) [
    | inr (p, there) ↦ (
      p,
      m,
      ground (arith, there),
      record {
        sound = s;
        real = used_real m p (s.statics_used k p there);
        here = s.statics_used k p there;
        kept = λ q u e. e;
        none_added = λ q u ne e. e;
        same_pools = refl;
        statics_kept = λ j q e. e;
        statics_old = λ j q e. inl e;
        in_pool = λ i e. absurd (ground (arith, is_flag, e));
        of_flag = λ e. there;
      },
    )
    | inl missing ↦ (
      length m.heap + 1,
      with_static,
      unfold with_static in ground (arith, missing),
      with_static-Makes is_flag missing,
    )
  ]

  -- The creation closure of a registered type.
  pub create-Makes :
      (maker : Maker)
      → find T.eq k F.component_creators ≡ some maker
      → HasSpaceFor maker m
      → (p : Ptr) × (m' : Memory K V) × (create T default_component k maker m ≡ (p, m'))
        × Makes T default_component F m k p m'
  unfolding create
  create-Makes flag known space = static_component-Makes known
  create-Makes (pooled i) known space =
      let same_pool : (l : ℕ) → find T.eq k F.component_creators ≡ some (pooled l) → i ≡ l =
        λ l e. ground (arith, known, e) in
      let (p, m', done, c) = acquire_from-Created T m s i (default_component k) space in
      (
        p,
        m',
        done,
        record {
          sound = c.sound;
          real = c.real;
          here = (default_component k, c.here);
          kept = c.kept;
          none_added = c.none_added;
          same_pools = c.same_pools;
          statics_kept = λ j q e. ap (find T.eq j) c.same_statics ∙ e;
          statics_old = λ j q e. inl (ap (find T.eq j) (sym c.same_statics) ∙ e);
          in_pool = λ l e. (
            λ j e'.
                let (u, used) = s.statics_used j p (ap (find T.eq j) (sym c.same_statics) ∙ e') in
                c.unused u used,
            c.unused,
            c.here,
            subst (λ j. FromPool T m j p m') (same_pool l e) c.from_pool,
          );
          of_flag = λ e. absurd (ground (arith, known, e));
        },
      )

  -- On sound memory, for a registered component type whose pool has a slot to give, `createComponent`
  -- and the creation function both give the same component, and report nothing: a pointer that is
  -- not null. For a type with a pool it leads to the default component, in the head of the free list of
  -- that pool, or at the start of its next chunk if that is empty, a slot that no component had before,
  -- and the other pools are as before; for a type without data it leads to the static component. All
  -- components stay in their slots, no slot is lost and the memory stays sound.
  pub create_component_lem :
      (copy_component : V → V) (maker : Maker)
      → find T.eq k F.component_creators ≡ some maker
      → HasSpaceFor maker m
      → (p : Ptr) × (m' : Memory K V) × (create_component T default_component F k m ≡ (p, m'))
        × (call_creator (factory_env T default_component copy_component F) k m ≡ ok (p, m'))
        × Makes T default_component F m k p m'
  unfolding create_component call_creator factory_env get_creation_fn
  create_component_lem copy_component maker known space =
      let (p, m', done, makes) = create-Makes maker known space in
      (p, m', ground (arith, known, done), ground (arith, known, done), makes)
