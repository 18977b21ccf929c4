-- ===== src/Ownership/Client.antt =====
-- entity_manager.h, component_factory.h and component_pool.h together: what a client's calls do to
-- the memory.
use raccoon_ecs.Common.{◌≡◌, refl, List, [], ◌∷◌}
use raccoon_ecs.Outcome.{fault, ok}
use raccoon_ecs.TypeId.{TypeId}
use raccoon_ecs.ComponentFactory.{ComponentFactory, Memory}
use raccoon_ecs.EntityManager.{EntityManager}
use raccoon_ecs.Ownership.{
  Call, new_entity, old_entity, new_component, old_component, clear_all, later_old_component,
  later_old_entity, execute, run, run_all,
}
use raccoon_ecs.Ownership.Vectors.{KnowsAll}
use raccoon_ecs.Ownership.State.{env, Owns, IsReady, Returns}
use raccoon_ecs.Ownership.EntityCalls.{new_entity-Returns, old_entity-Returns}
use raccoon_ecs.Ownership.Scheduled.{
  later_old_component-Returns, later_old_entity-Returns, execute-Returns,
}
use raccoon_ecs.Ownership.Clearing.{clear_all-Returns}
use raccoon_ecs.Ownership.ComponentCalls.{new_component-Returns, old_component-Returns}

module _ {K V : Type 0} (T : TypeId K) (default_component : K → V) (copy_component : V → V)
    (F : ComponentFactory K) where
  module _ (knows : KnowsAll T F) (s : EntityManager K (Memory K V)) (m : Memory K V)
      (o : Owns T default_component copy_component F s m) where
    run-Returns :
        (c : Call K)
        → IsReady T default_component copy_component F c s m
        → Returns T default_component copy_component F c s m
    run-Returns new_entity room =
        new_entity-Returns T default_component copy_component F knows s m o room
    run-Returns (old_entity e) _ =
        old_entity-Returns T default_component copy_component F knows s m o e
    run-Returns (new_component e k) ready =
        new_component-Returns T default_component copy_component F knows s m o e k ready
    run-Returns (old_component e k) _ =
        old_component-Returns T default_component copy_component F knows s m o e k
    run-Returns (later_old_component e k) _ =
        later_old_component-Returns T default_component copy_component F knows s m o e k
    run-Returns (later_old_entity e) _ =
        later_old_entity-Returns T default_component copy_component F knows s m o e
    run-Returns execute _ = execute-Returns T default_component copy_component F knows s m o
    run-Returns clear_all _ = clear_all-Returns T default_component copy_component F knows s m o

  -- The client sees to it before each of the calls.
  abbrev pub IsCareful : List (Call K) → EntityManager K (Memory K V) → Memory K V → Type 0
  IsCareful [] s m = Unit
  IsCareful (c ∷ cs) s m =
      IsReady T default_component copy_component F c s m
      × elim (run T (env T default_component copy_component F) c s m) [
        | ok r ↦ IsCareful cs r.0 r.1
        | fault e ↦ Unit
      ]

  -- From a manager that owns what is in the pools of its factory, has no callbacks and no scheduled
  -- additions: if all component types are registered, and a client sees before each `addEntity` that
  -- there is an id for it, and before each `addComponent` that the entity is there without such a
  -- component and that the pool has a slot to give, then any calls of these, of `removeEntity`,
  -- `removeComponent`, `clear`, the scheduling of removals and `executeScheduledActions` return, on
  -- any entities, and no pool slot is misused on the way: in the end, too, the free lists are sound,
  -- each component that the manager holds for a type with a pool is in a slot of its own, no other
  -- slot is in use but those of the static components, and each slot without a component is in the
  -- free list of some pool.
  pub run_all-Owns :
      (cs : List (Call K)) (s : EntityManager K (Memory K V)) (m : Memory K V)
      → KnowsAll T F
      → Owns T default_component copy_component F s m
      → IsCareful cs s m
      → (s' : EntityManager K (Memory K V)) × (m' : Memory K V) × (run_all T
            (env T default_component copy_component F)
            cs
            s
            m
          ≡ ok (s', m'))
        × Owns T default_component copy_component F s' m'
  unfolding run_all
  run_all-Owns [] s m knows o careful = (s, m, refl, o)
  run_all-Owns (c ∷ cs) s m knows o (ready, later) =
      let (s1, m1, done, o1) = run-Returns knows s m o c ready in
      let (s', m', rest, o') = run_all-Owns cs s1 m1 knows o1 (rw done at later) in
      (s', m', rw done rest, o')
