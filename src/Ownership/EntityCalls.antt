-- ===== src/Ownership/EntityCalls.antt =====
-- entity_manager.h, component_factory.h and component_pool.h together: a client's `addEntity`
-- and `removeEntity`.
use raccoon_ecs.Common.{◌≡◌, true, [], arith, inl, inr, ap, ◌∙◌, Bool-cases, Distinct}
use raccoon_ecs.Outcome.{ok}
use raccoon_ecs.Entity.{Entity}
use raccoon_ecs.TypeId.{TypeId}
use raccoon_ecs.ComponentMap.{component_at}
use raccoon_ecs.ComponentFactory.{ComponentFactory, Memory, factory_env, report_error}
use raccoon_ecs.EntityManager.{EntityManager}
use raccoon_ecs.EntityManager.Entities.{exists_at, has_entity}
use raccoon_ecs.EntityManager.Adding.{
  HasRoom, with_entity, add_entity-with_entity, with_entity-IsValid, with_entity-kept,
}
use raccoon_ecs.EntityManager.Removing.{remove_entity-without_entity, remove_entity_refused}
use raccoon_ecs.EntityManager.Leaving.{
  without_entity, without_entity-IsValid, component_at-without_entity,
}
use raccoon_ecs.EntityManager.Adding.{has_entity_by_id}
use raccoon_ecs.EntityManager.Quiet.{
  broadcast_quiet, IsQuiet-KeepsQuiet, with_entity-KeepsQuiet, without_entity-KeepsQuiet,
}
use raccoon_ecs.Ownership.{new_entity, old_entity, run}
use raccoon_ecs.Ownership.Holding.{Holds, Holds-same}
use raccoon_ecs.Ownership.Vectors.{KnowsAll, removes-Holds, left, left_all, left_none}
use raccoon_ecs.Ownership.State.{env, Owns, Returns, Holds-report_error}

module _ {K V : Type 0} (T : TypeId K) (default_component : K → V) (copy_component : V → V)
    (F : ComponentFactory K) where
  module _ (knows : KnowsAll T F) (s : EntityManager K (Memory K V)) (m : Memory K V)
      (o : Owns T default_component copy_component F s m) where
    pub new_entity-Returns : HasRoom s → Returns T default_component copy_component F new_entity s m
    unfolding run
    new_entity-Returns room =
        let (same, _, _) =
          with_entity-kept T (env T default_component copy_component F) s m o.valid room in
        (
          with_entity s,
          m,
          rw (add_entity-with_entity T (env T default_component copy_component F) s m o.valid room)
              (ap (λ w. ok (with_entity s, w)) (broadcast_quiet s.on_entity_added m o.quiet.0)),
          record {
            valid =
                with_entity-IsValid T (env T default_component copy_component F) s m o.valid room;
            quiet = IsQuiet-KeepsQuiet s (with_entity s) (with_entity-KeepsQuiet s) o.quiet;
            holds = rw same o.holds;
          },
        )

    pub old_entity-Returns :
        (e : Entity) → Returns T default_component copy_component F (old_entity e) s m
    unfolding run report_error factory_env
    old_entity-Returns e = elim (Bool-cases (has_entity s e)) [
      | inl has ↦
          let i = e.raw_id in
          let all = s.components in
          let there : exists_at s i ≡ true =
            ground (arith, has_entity_by_id s e o.valid.parallel) in
          let before : Holds T F (left T all i all) m =
            Holds-same T F (component_at T.eq all) (left T all i all) m o.holds
              (λ j x a. left_all T all i j x) in
          let (m', done, (once, after)) =
            remove_entity-without_entity T (env T default_component copy_component F) s e m o.valid
              (λ rest u. Distinct T.eq rest × Holds T F (left T all i rest) u)
              (removes-Holds T default_component copy_component F all i knows) has
              (o.valid.distinct, before) in
          (
            without_entity T s i,
            m',
            done
                ∙ ap (λ w. ok (without_entity T s i, w))
                    (broadcast_quiet s.on_entity_removed m' o.quiet.1),
            record {
              valid = without_entity-IsValid T s i o.valid there;
              quiet =
                  IsQuiet-KeepsQuiet s (without_entity T s i) (without_entity-KeepsQuiet T s i)
                    o.quiet;
              holds =
                  Holds-same T F (left T all i [])
                    (component_at T.eq (without_entity T s i).components) m' after
                    (λ j x a.
                      component_at-without_entity T s i o.valid there j x ∙ left_none T all i j x);
            },
          )
      | inr missing ↦ (
        s,
        _,
        remove_entity_refused T (env T default_component copy_component F) s e m o.valid missing,
        record {
          valid = o.valid;
          quiet = o.quiet;
          holds = Holds-report_error T default_component copy_component F _ m _ o.holds;
        },
      )
    ]
