-- ===== src/EntityManager/Executing.antt =====
-- entity_manager.h: `executeScheduledActions`.
use raccoon_ecs.Common.{
  ◌≡◌, refl, false, List, [], ◌∷◌, arith, if◌then◌else◌, Bool-cases, inl, inr, ◌∙◌, ap, ℕ, ◌&&◌,
  ◌==◌,
}
use raccoon_ecs.Outcome.{ok, nullptr}
use raccoon_ecs.ComponentMap.{component_at}
use raccoon_ecs.Env.{Env}
use raccoon_ecs.Env.Deleting.{HasDeleter}
use raccoon_ecs.Entity.{Entity, eq_entity}
use raccoon_ecs.Entity.Order.{eq_entity_iff}
use raccoon_ecs.TypeId.{TypeId}
use raccoon_ecs.EntityManager.{EntityManager}
use raccoon_ecs.EntityManager.Entities.{has_entity, exists_at, remove_entity}
use raccoon_ecs.EntityManager.Schedule.{
  add_scheduled, remove_scheduled_entities, execute_scheduled_actions,
}
use raccoon_ecs.EntityManager.Collecting.{listed}
use raccoon_ecs.EntityManager.Removing.{remove_entity_lem, remove_entity_refused}
use raccoon_ecs.EntityManager.History.{knows_all}
use raccoon_ecs.EntityManager.Invariant.{IsValid}
use raccoon_ecs.EntityManager.Scheduled.{
  SameQueues, AddsFresh, rescheduled-IsValid, remove_entity-SameQueues, add_scheduled-Ran,
  remove_scheduled_components-Ran, add_scheduled-added,
}
use raccoon_ecs.EntityManager.Planned.{
  planned, added, dropped, removes, removes_later, removes_same,
}

module _ {K W : Type 0} (T : TypeId K) (E : Env K W) (known : (k : K) → HasDeleter E k) where
  -- One removal, of an entity that may or may not be there.
  remove_entity-total :
      (e : Entity) (s : EntityManager K W) (w : W)
      → IsValid T s
      → (s' : EntityManager K W) × (w' : W) × (remove_entity E s e w ≡ ok (s', w'))
        × IsValid T s'
        × SameQueues s s'
        × ((e' : Entity) → has_entity s' e' ≡ (if eq_entity e e' then false else has_entity s e'))
        × ((j : K) (x : ℕ)
            → component_at T.eq s'.components j x ≡ (
                if has_entity s e && e.raw_id == x
                then nullptr
                else component_at T.eq s.components j x))
  remove_entity-total e s w v = elim (Bool-cases (has_entity s e)) [
    | inl has ↦
        let (s', w', done, v', hands, reads) =
          remove_entity_lem T E s e w v has (knows_all T E known s.components) in
        (
          s',
          w',
          done,
          v',
          remove_entity-SameQueues E s s' e w w' done,
          hands,
          λ j x. ground (arith, reads j x, has),
        )
    | inr missing ↦ (
      s,
      _,
      remove_entity_refused T E s e w v missing,
      v,
      (refl, refl, refl),
      λ e'. ground (arith, missing, ap (has_entity s), (eq_entity_iff e e').0.0),
      λ j x. ground (arith, missing),
    )
  ]

  remove_scheduled_entities-total :
      (es : List Entity) (s : EntityManager K W) (w : W)
      → IsValid T s
      → (s' : EntityManager K W) × (w' : W) × (remove_scheduled_entities T E es s w ≡ ok (s', w'))
        × IsValid T s'
        × SameQueues s s'
        × ((e' : Entity) → has_entity s' e' ≡ (if listed e' es then false else has_entity s e'))
        × ((j : K) (x : ℕ)
            → component_at T.eq s'.components j x ≡ (
                if removes (has_entity s) es x
                then nullptr
                else component_at T.eq s.components j x))
  unfolding remove_scheduled_entities
  remove_scheduled_entities-total [] s w v =
      (s, w, refl, v, (refl, refl, refl), λ e. refl, λ j x. refl)
  remove_scheduled_entities-total (e ∷ rest) s w v =
      let (s1, w1, done1, v1, (a1, b1, c1), hands1, reads1) = remove_entity-total e s w v in
      let (s', w', done', v', (a', b', c'), hands', reads') =
        remove_scheduled_entities-total rest s1 w1 v1 in
      (
        s',
        w',
        rw (remove_scheduled_entities, done1) done',
        v',
        (a' ∙ a1, b' ∙ b1, c' ∙ c1),
        λ x. ground (arith, hands' x, hands1 x),
        λ j x. ground (
          arith,
          reads' j x,
          reads1 j x,
          removes_later (has_entity s) (has_entity s1) e rest x hands1,
        ),
      )

  -- On a valid manager, if the factory knows all component types and each component that is scheduled
  -- to be added is one that its entity lacks by then, `executeScheduledActions` returns and leaves a
  -- valid manager without the entities that were scheduled for removal, with all the others, and with
  -- nothing scheduled. Each component is then what the additions, the removals of components and those
  -- of entities make of it, in this order.
  pub execute_scheduled_actions_lem :
      (s : EntityManager K W) (w : W)
      → IsValid T s
      → AddsFresh T E s.scheduled_component_additions s w
      → (s' : EntityManager K W) × (w' : W) × (execute_scheduled_actions T E s w ≡ ok (s', w'))
        × IsValid T s'
        × ((e : Entity)
            → has_entity s' e
              ≡ (if listed e s.scheduled_entity_removals then false else has_entity s e))
        × (s'.scheduled_component_additions ≡ [])
        × (s'.scheduled_component_removals ≡ [])
        × (s'.scheduled_entity_removals ≡ [])
        × ((j : K) (x : ℕ) → component_at T.eq s'.components j x ≡ planned T j x s)
  unfolding execute_scheduled_actions has_entity
  execute_scheduled_actions_lem s w v fresh =
      let r1 = add_scheduled T E s.scheduled_component_additions s w in
      let ran1 = add_scheduled-Ran T E known s.scheduled_component_additions s w v fresh in
      let s2 = record r1.0 { scheduled_component_additions = [] } in
      let v2 =
        rescheduled-IsValid T r1.0 ran1.valid [] r1.0.scheduled_component_removals
          r1.0.scheduled_entity_removals in
      let (s3, w3, done3, ran3, reads3) =
        remove_scheduled_components-Ran T E known s2.scheduled_component_removals s2 r1.1 v2 in
      let s4 = record s3 { scheduled_component_removals = [] } in
      let v4 =
        rescheduled-IsValid T s3 ran3.valid s3.scheduled_component_additions []
          s3.scheduled_entity_removals in
      let (s5, w5, done5, v5, (adds5, removals5, gone5), hands5, reads5) =
        remove_scheduled_entities-total s4.scheduled_entity_removals s4 w3 v4 in
      let gone : s3.scheduled_entity_removals ≡ s.scheduled_entity_removals =
        ran3.queues.2 ∙ ran1.queues.2 in
      (
        record s5 { scheduled_entity_removals = [] },
        w5,
        rw (done3, done5) refl,
        rescheduled-IsValid T s5 v5 s5.scheduled_component_additions s5.scheduled_component_removals
            [],
        λ e.
            hands5 e
            ∙ ap (λ es. if listed e es then false else has_entity s3 e) gone
            ∙ ap (λ b. if listed e s.scheduled_entity_removals then false else b)
                (ran3.handles e ∙ ran1.handles e),
        adds5 ∙ ran3.queues.0,
        removals5,
        refl,
        λ j x.
            let before = component_at T.eq s.components j x in
            let after_adds = added T j x (exists_at s x) s.scheduled_component_additions before in
            reads5 j x
            ∙ ap
                (λ es.
                  if removes (has_entity s3) es x
                  then nullptr
                  else component_at T.eq s3.components j x)
                gone
            ∙ ap (λ b. if b then nullptr else component_at T.eq s3.components j x)
                (removes_same (has_entity s) (has_entity s3) s.scheduled_entity_removals x
                  (λ e. ran3.handles e ∙ ran1.handles e))
            ∙ ap (λ p. if removes (has_entity s) s.scheduled_entity_removals x then nullptr else p)
                (reads3 j x
                  ∙ ap (λ rs. dropped T j x rs (component_at T.eq r1.0.components j x))
                      (ran1.queues.1)
                  ∙ ap (dropped T j x s.scheduled_component_removals) (
                      add_scheduled-added T E known s.scheduled_component_additions s w j x v
                        fresh)),
      )
