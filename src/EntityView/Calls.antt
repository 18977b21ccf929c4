-- ===== src/EntityView/Calls.antt =====
-- utils/entity_view.h: calls of one manager among several.
use raccoon_ecs.Common.{
  ℕ, ◌≡◌, ◌≢◌, refl, true, false, [], ◌∷◌, some, arith, get_elem?, set, get_or, ap, ◌∙◌,
  lt-of-get_elem?, get_elem?-set,
}
use raccoon_ecs.Outcome.{Ptr, nullptr, ok}
use raccoon_ecs.Env.{Env, call_creator}
use raccoon_ecs.Env.Deleting.{HasDeleter}
use raccoon_ecs.Entity.{Entity, entity}
use raccoon_ecs.TypeId.{TypeId}
use raccoon_ecs.ComponentMap.{component_at}
use raccoon_ecs.Indexes.SparseSet.Add.{components_of}
use raccoon_ecs.EntityManager.{EntityManager}
use raccoon_ecs.EntityManager.Entities.{exists_at, has_entity}
use raccoon_ecs.EntityManager.Components.{add_component_by_type}
use raccoon_ecs.EntityManager.Invariant.{IsValid}
use raccoon_ecs.EntityManager.Adding.{has_entity_by_id, at-get_elem?}
use raccoon_ecs.EntityManager.Owning.{add_component_lem, remove_component_lem}
use raccoon_ecs.EntityManager.Single.{get_entity_components_lem, does_entity_have_component_lem}
use raccoon_ecs.EntityView.{
  Managers, EntityView, call_manager, add_component, remove_component, has_component,
  get_components,
}

exists-same_handles :
    {K W : Type 0} (T : TypeId K) (s s' : EntityManager K W) (i : ℕ)
    → IsValid T s
    → IsValid T s'
    → ((e : Entity) → has_entity s' e ≡ has_entity s e)
    → exists_at s i ≡ true
    → exists_at s' i ≡ true
exists-same_handles T s s' i v v' same there =
    let e = entity i (get_or s.entity_versions i 0) in
    ground
      (arith, same e, has_entity_by_id s e v.parallel, has_entity_by_id s' e v'.parallel, there)

-- The managers but that of the view are as they were.
abbrev pub OthersSame : {K W : Type 0} → EntityView → Managers K W → Managers K W → Type 0
OthersSame view ms ms' = (i : ℕ) → view.manager ≢ i → get_elem? ms' i ≡ get_elem? ms i

module _ {K W : Type 0} (T : TypeId K) (E : Env K W) (view : EntityView) (k : K) (ms : Managers K W)
    (s : EntityManager K W) (w : W) (there : get_elem? ms view.manager ≡ some s) (v : IsValid T s)
    (exists : exists_at s view.entity.raw_id ≡ true) where
  -- If the view's manager is valid and the id of its entity has an entity without the component, and
  -- the factory makes a component that is not null, then `addComponent` gives it; from then on
  -- `hasComponent` answers true and `getComponents` gives the component, the manager is valid, and the
  -- other managers are as before.
  pub view-add_component :
      (p : Ptr) (w' : W)
      → component_at T.eq s.components k view.entity.raw_id ≡ nullptr
      → call_creator E k w ≡ ok (p, w')
      → p ≢ nullptr
      → (ms' : Managers K W) × (s' : EntityManager K W) × (add_component T E view k ms w
          ≡ ok (ms', (p, w')))
        × (get_elem? ms' view.manager ≡ some s')
        × IsValid T s'
        × (has_component T E view k ms' w' ≡ ok (true, w'))
        × (get_components view T (k ∷ []) ms' ≡ ok (p ∷ []))
        × OthersSame view ms ms'
  unfolding add_component call_manager add_component_by_type has_component get_components
  view-add_component p w' empty made real =
      let lt = lt-of-get_elem? ms view.manager s there in
      let (s', added, valid, reads, hands) =
        add_component_lem T E s view.entity k w' v p exists empty in
      let ms' = set ms view.manager s' in
      let at' : get_elem? ms' view.manager ≡ some s' =
        ground (arith, get_elem?-set ms view.manager view.manager s' lt) in
      let exists' = exists-same_handles T s s' view.entity.raw_id v valid hands exists in
      let held : component_at T.eq s'.components k view.entity.raw_id ≡ p =
        ground (arith, reads k view.entity.raw_id) in
      (
        ms',
        s',
        rw (at-get_elem? ms view.manager s there, made, added) refl,
        at',
        valid,
        rw (at-get_elem? ms' view.manager s' at') (
            ap ok (
              does_entity_have_component_lem T E s' view.entity k w'
              ∙ ground (arith, exists', held, real))),
        rw (at-get_elem? ms' view.manager s' at') (
            ap ok (
              (get_entity_components_lem T E s' view.entity (k ∷ [])).0
              ∙ unfold components_of in ground (arith, exists', held, real))),
        λ i ne. ground (arith, get_elem?-set ms view.manager i s' lt, ne),
      )

  -- If the view's manager is valid and the id of its entity has an entity, and the factory knows the
  -- type, then `removeComponent` returns; from then on `hasComponent` answers false and
  -- `getComponents` gives null, the manager is valid, and the other managers are as before.
  pub view-remove_component :
      HasDeleter E k
      → (ms' : Managers K W) × (s' : EntityManager K W) × (w' : W) × (remove_component T E view k ms
            w
          ≡ ok (ms', w'))
        × (get_elem? ms' view.manager ≡ some s')
        × IsValid T s'
        × (has_component T E view k ms' w' ≡ ok (false, w'))
        × (get_components view T (k ∷ []) ms' ≡ ok (nullptr ∷ []))
        × OthersSame view ms ms'
  unfolding remove_component call_manager has_component get_components
  view-remove_component known =
      let lt = lt-of-get_elem? ms view.manager s there in
      let (s', w', removed, valid, reads, hands, deletion) =
        remove_component_lem T E s view.entity k w v exists known in
      let ms' = set ms view.manager s' in
      let at' : get_elem? ms' view.manager ≡ some s' =
        ground (arith, get_elem?-set ms view.manager view.manager s' lt) in
      let exists' = exists-same_handles T s s' view.entity.raw_id v valid hands exists in
      let held : component_at T.eq s'.components k view.entity.raw_id ≡ nullptr =
        ground (arith, reads k view.entity.raw_id) in
      (
        ms',
        s',
        w',
        rw (at-get_elem? ms view.manager s there, removed) refl,
        at',
        valid,
        rw (at-get_elem? ms' view.manager s' at') (
            ap ok (
              does_entity_have_component_lem T E s' view.entity k w'
              ∙ ground (arith, exists', held))),
        rw (at-get_elem? ms' view.manager s' at') (
            ap ok (
              (get_entity_components_lem T E s' view.entity (k ∷ [])).0
              ∙ unfold components_of in ground (arith, exists', held))),
        λ i ne. ground (arith, get_elem?-set ms view.manager i s' lt, ne),
      )
