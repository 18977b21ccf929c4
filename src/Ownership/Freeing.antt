-- ===== src/Ownership/Freeing.antt =====
-- entity_manager.h, component_factory.h and component_pool.h together: what is in use after a `clear`,
-- which the destructor of the manager calls too.
use raccoon_ecs.Common.{
  ℕ, true, get_elem?, elem, ℕ_discrete, ◌≡◌, refl, false, List, [], ◌∷◌, ◌++◌, some, arith, inl,
  inr, sym, ◌∙◌, find,
}
use raccoon_ecs.Outcome.{Ptr, Outcome, ok, fault, ◌>>=◌}
use raccoon_ecs.Env.{Env}
use raccoon_ecs.Entity.{Entity}
use raccoon_ecs.TypeId.{TypeId}
use raccoon_ecs.ComponentMap.{component_at, get_component_vector_by_id}
use raccoon_ecs.ComponentPool.Slots.{Chain}
use raccoon_ecs.ComponentPool.{ComponentPool, next_free_slot, component, slot_at}
use raccoon_ecs.ComponentFactory.{ComponentFactory, Memory}
use raccoon_ecs.ComponentFactory.Sound.{used_real}
use raccoon_ecs.EntityManager.{EntityManager}
use raccoon_ecs.EntityManager.Entities.{has_entity}
use raccoon_ecs.EntityManager.Clearing.{cleared}
use raccoon_ecs.Ownership.{Call, clear_all, run, run_all}
use raccoon_ecs.Ownership.Vectors.{KnowsAll}
use raccoon_ecs.Ownership.State.{env, Owns}
use raccoon_ecs.Ownership.Clearing.{clear_all-Owns}
use raccoon_ecs.Ownership.Client.{IsCareful, run_all-Owns}

bind-append :
    {A B : Type 0} (o : Outcome A) (f g : A → Outcome B) (h : B → Outcome B)
    → ((a : A) → f a ≡ (g a >>= h))
    → (o >>= f) ≡ ((o >>= g) >>= h)
bind-append (ok a) f g h same = same a
bind-append (fault e) f g h same = refl

module _ {K W : Type 0} (T : TypeId K) (E : Env K W) where
  run_all-append :
      (cs ds : List (Call K)) (s : EntityManager K W) (w : W)
      → run_all T E (cs ++ ds) s w ≡ (run_all T E cs s w >>= λ r. run_all T E ds r.0 r.1)
  unfolding run_all
  run_all-append [] ds s w = refl
  run_all-append (c ∷ cs) ds s w =
      bind-append (run T E c s w) (λ r. run_all T E (cs ++ ds) r.0 r.1)
        (λ r. run_all T E cs r.0 r.1) (λ r. run_all T E ds r.0 r.1)
        (λ r. run_all-append cs ds r.0 r.1)

  run_all-then :
      (cs : List (Call K)) (c : Call K) (s s' t : EntityManager K W) (w w' u : W)
      → run_all T E cs s w ≡ ok (s', w')
      → run T E c s' w' ≡ ok (t, u)
      → run_all T E (cs ++ c ∷ []) s w ≡ ok (t, u)
  unfolding run_all
  run_all-then cs c s s' t w w' u before last =
      run_all-append cs (c ∷ []) s w ∙ rw (before, last) refl

-- The slot is in the free list of some pool.
abbrev pub IsFree : {K V : Type 0} → Memory K V → Ptr → Type 0
IsFree m q =
    (i : ℕ) × (pool : ComponentPool) × (free : List Ptr) × (get_elem? m.component_pools i
      ≡ some pool)
    × Chain m.heap pool.free_list free
    × (elem ℕ_discrete q free ≡ true)

module _ {K V : Type 0} (T : TypeId K) (default_component : K → V) (copy_component : V → V)
    (F : ComponentFactory K) where
  -- From a manager that owns what is in the pools of its factory, has no callbacks and no scheduled
  -- additions: if all component types are registered, and a client sees before each `addEntity` that
  -- there is an id for it, and before each `addComponent` that the entity is there without such a
  -- component and that the pool has a slot to give, then after these and other calls, removals and
  -- scheduled removals, a `clear` returns. Afterwards no entity is there, each slot with a component
  -- is that of a static component, and each slot without one is in the free list of some pool.
  pub run_all-freed :
      (cs : List (Call K)) (s : EntityManager K (Memory K V)) (m : Memory K V)
      → KnowsAll T F
      → Owns T default_component copy_component F s m
      → IsCareful T default_component copy_component F cs s m
      → (s' : EntityManager K (Memory K V)) × (m' : Memory K V) × (run_all T
            (env T default_component copy_component F)
            (cs ++ clear_all ∷ [])
            s
            m
          ≡ ok (s', m'))
        × ((e : Entity) → has_entity s' e ≡ false)
        × ((q : Ptr) (u : V)
            → slot_at m'.heap q ≡ some (component u)
            → (k : K) × (find T.eq k m'.statics ≡ some q))
        × ((q next : Ptr) → slot_at m'.heap q ≡ some (next_free_slot next) → IsFree m' q)
  unfolding component_at get_component_vector_by_id find
  run_all-freed cs s m knows o careful =
      let E = env T default_component copy_component F in
      let (s1, m1, done1, o1) =
        run_all-Owns T default_component copy_component F cs s m knows o careful in
      let (m', done', o') = clear_all-Owns T default_component copy_component F knows s1 m1 o1 in
      (
        cleared T E s1,
        m',
        run_all-then T E cs clear_all s s1 (cleared T E s1) m m1 m' done1 done',
        unfold has_entity in λ e. ground arith,
        λ q u used. elim (o'.holds.no_leak q u used) [
          | inl static ↦ static
          | inr r ↦ let (k, j, in_pool, null) = r in absurd (used_real m' q (u, used) (sym null))
        ],
        λ q next e.
            let (i, f) = o'.holds.sound.none_lost q next e in
            let (pool, at) = o'.holds.sound.in_range i q f in
            (i, pool, o'.holds.sound.frees i, at, (o'.holds.sound.chains i pool at).0, f),
      )
