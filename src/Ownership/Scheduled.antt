-- ===== src/Ownership/Scheduled.antt =====
-- entity_manager.h, component_factory.h and component_pool.h together: a client's
-- `scheduleRemoveComponent`, `scheduleRemoveEntity` and `executeScheduledActions`.
use raccoon_ecs.Common.{◌≡◌, refl, List, [], ◌∷◌, ◌++◌}
use raccoon_ecs.Outcome.{ok}
use raccoon_ecs.Env.{Env}
use raccoon_ecs.Common.{ap}
use raccoon_ecs.Entity.{Entity}
use raccoon_ecs.TypeId.{TypeId}
use raccoon_ecs.ComponentFactory.{ComponentFactory, Memory}
use raccoon_ecs.EntityManager.{EntityManager, ComponentToRemove}
use raccoon_ecs.EntityManager.Schedule.{
  add_scheduled, remove_scheduled_components, remove_scheduled_entities, execute_scheduled_actions,
  schedule_remove_component, schedule_remove_entity,
}
use raccoon_ecs.EntityManager.Scheduled.{rescheduled-IsValid}
use raccoon_ecs.Ownership.{run, later_old_component, later_old_entity, execute}
use raccoon_ecs.Ownership.Vectors.{KnowsAll}
use raccoon_ecs.Ownership.State.{env, Owns, Returns}
use raccoon_ecs.Ownership.EntityCalls.{old_entity-Returns}
use raccoon_ecs.Ownership.ComponentCalls.{old_component-Returns}

execute-done :
    {K W : Type 0} (T : TypeId K) (E : Env K W) (s : EntityManager K W) (w : W)
    → s.scheduled_component_additions ≡ []
    → (s3 : EntityManager K W) (w3 : W) (s5 : EntityManager K W) (w5 : W)
    → remove_scheduled_components T E s.scheduled_component_removals
        (record s { scheduled_component_additions = [] })
        w
      ≡ ok (s3, w3)
    → remove_scheduled_entities T E s3.scheduled_entity_removals
        (record s3 { scheduled_component_removals = [] })
        w3
      ≡ ok (s5, w5)
    → execute_scheduled_actions T E s w ≡ ok (record s5 { scheduled_entity_removals = [] }, w5)
unfolding execute_scheduled_actions add_scheduled
execute-done T E s w none_waits s3 w3 s5 w5 done3 done5 =
    let none_added : add_scheduled T E s.scheduled_component_additions s w ≡ (s, w) =
      ap (λ adds. add_scheduled T E adds s w) none_waits in
    rw (none_added, done3, done5) refl

module _ {K V : Type 0} (T : TypeId K) (default_component : K → V) (copy_component : V → V)
    (F : ComponentFactory K) where
  -- The removals that are scheduled do not matter, and no additions are.
  rescheduled-Owns :
      (s : EntityManager K (Memory K V)) (m : Memory K V)
      → Owns T default_component copy_component F s m
      → (removals : List (ComponentToRemove K)) (gone : List Entity)
      → Owns T default_component copy_component F
          (record s {
            scheduled_component_additions = [];
            scheduled_component_removals = removals;
            scheduled_entity_removals = gone;
          })
          m
  rescheduled-Owns s m o removals gone = record {
    valid = rescheduled-IsValid T s o.valid [] removals gone;
    quiet = (o.quiet.0, o.quiet.1, refl);
    holds = o.holds;
  }

  module _ (knows : KnowsAll T F) where
    remove_scheduled_components-Owns :
        (rs : List (ComponentToRemove K)) (s : EntityManager K (Memory K V)) (m : Memory K V)
        → Owns T default_component copy_component F s m
        → (s' : EntityManager K (Memory K V)) × (m' : Memory K V) × (remove_scheduled_components T
              (env T default_component copy_component F)
              rs
              s
              m
            ≡ ok (s', m'))
          × Owns T default_component copy_component F s' m'
    unfolding remove_scheduled_components run
    remove_scheduled_components-Owns [] s m o = (s, m, refl, o)
    remove_scheduled_components-Owns (r ∷ rest) s m o =
        let (s1, m1, done1, o1) =
          old_component-Returns T default_component copy_component F knows s m o r.entity
            r.type_id in
        let (s', m', done', o') = remove_scheduled_components-Owns rest s1 m1 o1 in
        (s', m', rw (remove_scheduled_components, done1) done', o')

    remove_scheduled_entities-Owns :
        (es : List Entity) (s : EntityManager K (Memory K V)) (m : Memory K V)
        → Owns T default_component copy_component F s m
        → (s' : EntityManager K (Memory K V)) × (m' : Memory K V) × (remove_scheduled_entities T
              (env T default_component copy_component F)
              es
              s
              m
            ≡ ok (s', m'))
          × Owns T default_component copy_component F s' m'
    unfolding remove_scheduled_entities run
    remove_scheduled_entities-Owns [] s m o = (s, m, refl, o)
    remove_scheduled_entities-Owns (e ∷ rest) s m o =
        let (s1, m1, done1, o1) =
          old_entity-Returns T default_component copy_component F knows s m o e in
        let (s', m', done', o') = remove_scheduled_entities-Owns rest s1 m1 o1 in
        (s', m', rw (remove_scheduled_entities, done1) done', o')

    module _ (s : EntityManager K (Memory K V)) (m : Memory K V)
        (o : Owns T default_component copy_component F s m) where
      pub later_old_component-Returns :
          (e : Entity) (k : K)
          → Returns T default_component copy_component F (later_old_component e k) s m
      unfolding run schedule_remove_component
      later_old_component-Returns e k = (
        schedule_remove_component s e k,
        m,
        refl,
        record {
          valid =
              rescheduled-IsValid T s o.valid s.scheduled_component_additions
                (s.scheduled_component_removals ++ record { entity = e; type_id = k } ∷ [])
                s.scheduled_entity_removals;
          quiet = o.quiet;
          holds = o.holds;
        },
      )

      pub later_old_entity-Returns :
          (e : Entity) → Returns T default_component copy_component F (later_old_entity e) s m
      unfolding run schedule_remove_entity
      later_old_entity-Returns e = (
        schedule_remove_entity s e,
        m,
        refl,
        record {
          valid =
              rescheduled-IsValid T s o.valid s.scheduled_component_additions
                s.scheduled_component_removals (s.scheduled_entity_removals ++ e ∷ []);
          quiet = o.quiet;
          holds = o.holds;
        },
      )

      pub execute-Returns : Returns T default_component copy_component F execute s m
      unfolding run
      execute-Returns =
          let s2 = record s { scheduled_component_additions = [] } in
          let o2 =
            rescheduled-Owns s m o s.scheduled_component_removals s.scheduled_entity_removals in
          let (s3, m3, done3, o3) =
            remove_scheduled_components-Owns s.scheduled_component_removals s2 m o2 in
          let s4 = record s3 { scheduled_component_removals = [] } in
          let o4 : Owns T default_component copy_component F s4 m3 = record {
            valid =
                rescheduled-IsValid T s3 o3.valid s3.scheduled_component_additions []
                  s3.scheduled_entity_removals;
            quiet = o3.quiet;
            holds = o3.holds;
          } in
          let (s5, m5, done5, o5) =
            remove_scheduled_entities-Owns s3.scheduled_entity_removals s4 m3 o4 in
          (
            record s5 { scheduled_entity_removals = [] },
            m5,
            execute-done T (env T default_component copy_component F) s m o.quiet.2 s3 m3 s5 m5
                done3 done5,
            record {
              valid =
                  rescheduled-IsValid T s5 o5.valid s5.scheduled_component_additions
                    s5.scheduled_component_removals [];
              quiet = o5.quiet;
              holds = o5.holds;
            },
          )
