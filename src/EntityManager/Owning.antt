-- ===== src/EntityManager/Owning.antt =====
-- entity_manager.h: what `addComponent` and `removeComponent` do to the components of an entity.
use raccoon_ecs.Common.{
  Bool-cases, inl, inr, ◌⊎◌, get_or_beyond, ℕ, ◌<◌, ◌≡◌, refl, true, false, length, get_or, arith,
  set, ltb, ◌==◌, if◌then◌else◌, lt-of-get_or_ne, ite, modify, modify-Distinct,
}
use raccoon_ecs.Outcome.{Ptr, nullptr, ok}
use raccoon_ecs.Env.{
  Env, call_deleter, add_component_to_non_existent, remove_component_from_non_existent,
}
use raccoon_ecs.Env.Deleting.{HasDeleter, call_deleter-HasDeleter}
use raccoon_ecs.Entity.{Entity, u32_mod}
use raccoon_ecs.TypeId.{TypeId}
use raccoon_ecs.ComponentMap.{component_at, get_component_vector_by_id}
use raccoon_ecs.ComponentMap.Placing.{
  placed, component_at-placed, placed-Distinct, length_vector-placed, component_at-modify_null,
  length_vector-modify_null, get_or-long_enough, modify_null_beyond, vector-get_or_create,
  with_vector,
}
use raccoon_ecs.Indexes.{on_component_added}
use raccoon_ecs.Indexes.Events.{on_component_added-IsConsistent, on_component_removed-IsConsistent}
use raccoon_ecs.EntityManager.{EntityManager}
use raccoon_ecs.EntityManager.Entities.{exists_at, has_entity}
use raccoon_ecs.EntityManager.Components.{
  add_component, add_component_to_entity, remove_component, unindex,
}
use raccoon_ecs.EntityManager.Invariant.{IsValid}

module _ {K W : Type 0} (T : TypeId K) (s : EntityManager K W) where
  pub exists-lt :
      (i : ℕ)
      → IsValid T s
      → exists_at s i ≡ true
      → (i < length s.entity_existance_flags) × (i < u32_mod)
  unfolding exists_at
  exists-lt i v there =
      let lt = lt-of-get_or_ne s.entity_existance_flags i false (ground arith) in
      (lt, omega (arith, lt, v.few, v.parallel))

  -- The manager with one more component.
  pub with_component : K → ℕ → Ptr → EntityManager K W
  with_component k i p =
      let components = placed T.eq s.components k i p in
      record s { components = components; indexes = on_component_added T s.indexes k i components }

  add_component_to_entity-with_component :
      (E : Env K W) (k : K) (i : ℕ) (p : Ptr) (w : W)
      → component_at T.eq s.components k i ≡ nullptr
      → add_component_to_entity T E s i p k w ≡ (with_component k i p, w)
  unfolding add_component_to_entity with_component placed with_vector component_at
  add_component_to_entity-with_component E k i p w empty =
      let v = get_component_vector_by_id T.eq s.components k in
      rw vector-get_or_create (ground (arith, get_or-long_enough v i i))

  with_component-IsValid :
      (k : K) (i : ℕ) (p : Ptr)
      → IsValid T s
      → exists_at s i ≡ true
      → component_at T.eq s.components k i ≡ nullptr
      → IsValid T (with_component k i p)
  unfolding with_component
  with_component-IsValid k i p v there empty =
      let (inside, lt) = exists-lt i v there in
      let at = component_at-placed T.eq s.components k i p in
      record {
        parallel = v.parallel;
        few = v.few;
        versions_fit = v.versions_fit;
        free_unused = unfold exists_at in v.free_unused;
        free_once = v.free_once;
        owned = unfold exists_at in λ j x gone. ground (arith, at j x, v.owned j x gone, there);
        distinct = placed-Distinct T.eq s.components k i p v.distinct;
        fits = λ j. length_vector-placed T.eq s.components k i p j u32_mod lt v.fits;
        consistent =
            on_component_added-IsConsistent T s.components (placed T.eq s.components k i p)
              s.indexes k i v.consistent
              (record {
                other_types = λ j x ne. ground (arith, at j x);
                other_ids = λ j x ne. ground (arith, at j x);
              })
              empty lt;
      }

  without_component-IsValid :
      (k : K) (i : ℕ)
      → IsValid T s
      → IsValid T (unindex T s (modify T.eq k (λ ps. set ps i nullptr) s.components) k i)
  unfolding unindex
  without_component-IsValid k i v =
      let at = component_at-modify_null T.eq s.components k i in
      record {
        parallel = v.parallel;
        few = v.few;
        versions_fit = v.versions_fit;
        free_unused = unfold exists_at in v.free_unused;
        free_once = v.free_once;
        owned = unfold exists_at in λ j x gone. ground (arith, at j x, v.owned j x gone);
        distinct = modify-Distinct T.eq k (λ ps. set ps i nullptr) s.components v.distinct;
        fits = λ j. omega (arith, length_vector-modify_null T.eq s.components k i j, v.fits j);
        consistent =
            on_component_removed-IsConsistent T s.components
              (modify T.eq k (λ ps. set ps i nullptr) s.components) s.indexes k i v.consistent
              (record {
                other_types = λ j x ne. ground (arith, at j x);
                other_ids = λ j x ne. ground (arith, at j x);
              })
              (ground (arith, at k i));
      }

module _ {K W : Type 0} (T : TypeId K) (E : Env K W) (s : EntityManager K W) (e : Entity) (k : K)
    (w : W) (v : IsValid T s) where
  -- On a valid manager, for an id with an entity that lacks the component, `addComponent` leaves a
  -- valid manager (all indexes up to date) that holds the pointer for that entity and type, every
  -- other component as before, and the same entities; it reports nothing.
  pub add_component_lem :
      (p : Ptr)
      → exists_at s e.raw_id ≡ true
      → component_at T.eq s.components k e.raw_id ≡ nullptr
      → (s' : EntityManager K W) × (add_component T E s e p k w ≡ (s', w))
        × IsValid T s'
        × ((j : K) (x : ℕ)
            → component_at T.eq s'.components j x
              ≡ ite
                  (T.eq k j)
                  (if e.raw_id == x then p else component_at T.eq s.components j x)
                  (component_at T.eq s.components j x))
        × ((e' : Entity) → has_entity s' e' ≡ has_entity s e')
  add_component_lem p there empty =
      let (inside, lt) = exists-lt T s e.raw_id v there in
      (
        with_component T s k e.raw_id p,
        unfold add_component exists_at in
            ground (
              arith,
              inside,
              there,
              add_component_to_entity-with_component T s E k e.raw_id p w empty,
            ),
        with_component-IsValid T s k e.raw_id p v there empty,
        unfold with_component in component_at-placed T.eq s.components k e.raw_id p,
        λ e'. unfold has_entity with_component in refl,
      )

  -- On a valid manager `removeComponent` of a type that the factory knows, for an id with an entity,
  -- returns and leaves a valid manager (all indexes up to date) without that component, every other
  -- component as before, and the same entities; the component goes to the deletion function of its
  -- type, unless there is none and nothing else changes.
  pub remove_component_lem :
      exists_at s e.raw_id ≡ true
      → HasDeleter E k
      → (s' : EntityManager K W) × (w' : W) × (remove_component T E s e k w ≡ ok (s', w'))
        × IsValid T s'
        × ((j : K) (x : ℕ)
            → component_at T.eq s'.components j x
              ≡ ite
                  (T.eq k j)
                  (if e.raw_id == x then nullptr else component_at T.eq s.components j x)
                  (component_at T.eq s.components j x))
        × ((e' : Entity) → has_entity s' e' ≡ has_entity s e')
        × ((call_deleter E k (component_at T.eq s.components k e.raw_id) w ≡ ok w')
            ⊎ ((component_at T.eq s.components k e.raw_id ≡ nullptr) × (w' ≡ w)))
  remove_component_lem there known =
      let i = e.raw_id in
      let (inside, lt) = exists-lt T s i v there in
      let vector = get_component_vector_by_id T.eq s.components k in
      let (w', deleted) = call_deleter-HasDeleter E k (get_or vector i nullptr) w known in
      (
        unindex T s (modify T.eq k (λ ps. set ps i nullptr) s.components) k i,
        if ltb i (length vector) then w' else w,
        unfold remove_component exists_at in
            ground (arith, inside, there, deleted, modify_null_beyond T.eq s.components k i),
        without_component-IsValid T s k i v,
        unfold unindex in component_at-modify_null T.eq s.components k i,
        λ e'. unfold has_entity unindex in refl,
        elim (Bool-cases (ltb i (length vector))) [
          | inl lt ↦ inl (unfold component_at in ground (arith, lt, deleted))
          | inr out ↦ inr (
            unfold component_at in get_or_beyond vector i nullptr (ground (arith, out)),
            ground (arith, out),
          )
        ],
      )

module _ {K W : Type 0} (T : TypeId K) (E : Env K W) (s : EntityManager K W) (e : Entity) (k : K)
    (w : W) where
  -- On an id with no entity `addComponent` and `removeComponent` change nothing and report one error.
  pub component_of_no_entity :
      (p : Ptr)
      → exists_at s e.raw_id ≡ false
      → (add_component T E s e p k w ≡ (s, E.report (add_component_to_non_existent k e.raw_id) w))
        × (remove_component T E s e k w
            ≡ ok (s, E.report (remove_component_from_non_existent k e.raw_id) w))
  unfolding add_component remove_component exists_at
  component_of_no_entity p missing = (ground arith, ground arith)
