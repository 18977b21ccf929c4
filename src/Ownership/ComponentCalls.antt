-- ===== src/Ownership/ComponentCalls.antt =====
-- entity_manager.h, component_factory.h and component_pool.h together: a client's `addComponent`
-- and `removeComponent`.
use raccoon_ecs.Common.{◌≡◌, refl, some, arith, inl, inr, ap, sym, ◌∙◌, find, Bool-cases, subst}
use raccoon_ecs.Outcome.{ok-injective, nullptr}
use raccoon_ecs.Env.{remove_component_from_non_existent}
use raccoon_ecs.Env.Deleting.{HasDeleter}
use raccoon_ecs.Entity.{Entity}
use raccoon_ecs.TypeId.{TypeId}
use raccoon_ecs.ComponentMap.{component_at}
use raccoon_ecs.ComponentFactory.{
  ComponentFactory, Memory, delete, get_deletion_fn, factory_env, report_error,
}
use raccoon_ecs.ComponentFactory.Creating.{create_component_lem}
use raccoon_ecs.EntityManager.{EntityManager}
use raccoon_ecs.EntityManager.Entities.{exists_at}
use raccoon_ecs.EntityManager.Components.{add_component_by_type}
use raccoon_ecs.EntityManager.Owning.{
  add_component_lem, remove_component_lem, component_of_no_entity,
}
use raccoon_ecs.EntityManager.Quiet.{
  IsQuiet-KeepsQuiet, add_component-KeepsQuiet, remove_component-KeepsQuiet,
}
use raccoon_ecs.Ownership.{new_component, old_component, run}
use raccoon_ecs.Ownership.Holding.{Holds, Holds-made}
use raccoon_ecs.Ownership.Vectors.{KnowsAll, call_deleter-Holds, forgotten}
use raccoon_ecs.Ownership.State.{env, Owns, IsReady, Returns, Holds-report_error}

module _ {K V : Type 0} (T : TypeId K) (default_component : K → V) (copy_component : V → V)
    (F : ComponentFactory K) where
  module _ (knows : KnowsAll T F) (s : EntityManager K (Memory K V)) (m : Memory K V)
      (o : Owns T default_component copy_component F s m) where
    pub new_component-Returns :
        (e : Entity) (k : K)
        → IsReady T default_component copy_component F (new_component e k) s m
        → Returns T default_component copy_component F (new_component e k) s m
    unfolding run add_component_by_type
    new_component-Returns e k (there, empty, space) =
        let (maker, known) = knows k in
        let (p, m', direct, called, makes) =
          create_component_lem T default_component F k m o.holds.sound copy_component maker known
            (space maker known) in
        let (s', added, valid, reads, hands) =
          add_component_lem T (env T default_component copy_component F) s e k m' o.valid p there
            empty in
        (
          s',
          m',
          rw (called, added) refl,
          record {
            valid = valid;
            quiet =
                IsQuiet-KeepsQuiet s s'
                  (rw added at (
                    add_component-KeepsQuiet T (env T default_component copy_component F) s e p k
                      m'))
                  o.quiet;
            holds =
                Holds-made T F (component_at T.eq s.components) (component_at T.eq s'.components) m
                  m' k e.raw_id o.holds default_component p maker known makes empty reads;
          },
        )

    has_deleter : (k : K) → HasDeleter (env T default_component copy_component F) k
    has_deleter k w =
        let (maker, known) = knows k in
        let same : find T.eq k F.component_deleters ≡ some maker =
          ap (find T.eq k) o.holds.fits.same_deleters ∙ known in
        (delete maker, unfold factory_env get_deletion_fn in ground (arith, same))

    pub old_component-Returns :
        (e : Entity) (k : K) → Returns T default_component copy_component F (old_component e k) s m
    unfolding run report_error factory_env
    old_component-Returns e k = elim (Bool-cases (exists_at s e.raw_id)) [
      | inl there ↦
          let (s', m', done, valid, reads, hands, deletion) =
            remove_component_lem T (env T default_component copy_component F) s e k m o.valid there
              (has_deleter k) in
          let (maker, known) = knows k in
          let (m'', called, after) =
            call_deleter-Holds T default_component copy_component F (component_at T.eq s.components)
              (component_at T.eq s'.components) m k e.raw_id maker o.holds known reads in
          (
            s',
            m',
            done,
            record {
              valid = valid;
              quiet =
                  IsQuiet-KeepsQuiet s s'
                    (remove_component-KeepsQuiet T (env T default_component copy_component F) s s' e
                      k m m' done)
                    o.quiet;
              holds = elim deletion [
                | inl deleted ↦
                    subst (Holds T F (component_at T.eq s'.components))
                      (ok-injective (sym called ∙ deleted)) after
                | inr r ↦ subst (Holds T F (component_at T.eq s'.components)) (sym r.1) (
                    forgotten T F (component_at T.eq s.components) (component_at T.eq s'.components)
                      m k e.raw_id o.holds reads (λ j x a same here. rw (sym same, sym here) r.0))
              ];
            },
          )
      | inr missing ↦ (
        s,
        (env T default_component copy_component F).report
            (remove_component_from_non_existent k e.raw_id) m,
        (component_of_no_entity T (env T default_component copy_component F) s e k m nullptr
            missing).1,
        record {
          valid = o.valid;
          quiet = o.quiet;
          holds = Holds-report_error T default_component copy_component F _ m _ o.holds;
        },
      )
    ]
