-- ===== src/EntityManager/Transferring.antt =====
-- entity_manager.h: `transferEntityTo`.
use raccoon_ecs.Common.{
  ℕ, ◌≡◌, refl, true, false, not, List, [], ◌∷◌, ◌&&◌, none, is_some, find, arith, get_or, length,
  ltb, ◌==◌, if◌then◌else◌, get_or_beyond, Bool-cases, inl, inr, ◌∙◌, ap, Distinct, ite, ◌≢◌,
}
use raccoon_ecs.Outcome.{Ptr, nullptr, ok}
use raccoon_ecs.Env.{Env}
use raccoon_ecs.Entity.{Entity, entity, eq_entity}
use raccoon_ecs.Entity.Order.{eq_entity_iff}
use raccoon_ecs.TypeId.{TypeId}
use raccoon_ecs.ComponentMap.{ComponentMap, component_at, get_component_vector_by_id}
use raccoon_ecs.ComponentMap.Without.{without_id, set_same}
use raccoon_ecs.Delegates.{broadcast}
use raccoon_ecs.EntityManager.{EntityManager}
use raccoon_ecs.EntityManager.Entities.{has_entity, exists_at}
use raccoon_ecs.EntityManager.Transfer.{transfer_components, transfer_entity_to}
use raccoon_ecs.EntityManager.Adding.{
  HasRoom, next_id, with_entity, add_entity-with_entity, id_unused, with_entity-kept,
  with_entity-IsValid, has_entity-with_entity, has_entity_by_id, at-get_or,
}
use raccoon_ecs.EntityManager.Leaving.{
  without_entity, without_entity-IsValid, component_at-without_entity, has_entity-without_entity,
}
use raccoon_ecs.EntityManager.Owning.{add_component_lem}
use raccoon_ecs.EntityManager.Invariant.{IsValid}

module _ {K W : Type 0} (T : TypeId K) (s : EntityManager K W) (v : IsValid T s) where
  there_of_has : (e : Entity) → has_entity s e ≡ true → exists_at s e.raw_id ≡ true
  there_of_has e has = ground (arith, has_entity_by_id s e v.parallel)

-- What the new manager holds once the components of the id `i` of `m` have gone over to `id`.
abbrev pub moved :
    {K W : Type 0} → Discrete K → ComponentMap K → ℕ → ℕ → EntityManager K W → K → ℕ → Ptr
moved dec m i id target k x =
    if id == x && not (component_at dec m k i == nullptr)
    then component_at dec m k i
    else component_at dec target.components k x

module _ {K : Type 0} (dec : Discrete K) (k : K) (ps : List Ptr) (m : ComponentMap K) (i : ℕ) where
  component_at-cons :
      (j : K)
      → component_at dec ((k, ps) ∷ m) j i
        ≡ ite (dec k j) (get_or ps i nullptr) (component_at dec m j i)
  unfolding component_at find get_component_vector_by_id
  component_at-cons j = ground arith

  -- The tail has no vector for the type of the head.
  component_at-absent : find dec k m ≡ none → component_at dec m k i ≡ nullptr
  unfolding component_at get_component_vector_by_id
  component_at-absent once = ground (arith, once)

  in_tail :
      (j : K)
      → is_some (find dec j m) ≡ true
      → find dec k m ≡ none
      → (is_some (find dec j ((k, ps) ∷ m)) ≡ true) × (k ≢ j)
  unfolding find
  in_tail j there once =
      (ground (arith, there), λ same. ground (arith, ap (λ x. is_some (find dec x m)) same))

module _ {K W : Type 0} (T : TypeId K) (E : Env K W) (i : ℕ) (e : Entity) (w : W) where
  transfer_components_lem :
      (m : ComponentMap K) (target : EntityManager K W)
      → Distinct T.eq m
      → IsValid T target
      → has_entity target e ≡ true
      → ((k : K)
          → is_some (find T.eq k m) ≡ true
          → component_at T.eq target.components k e.raw_id ≡ nullptr)
      → (target' : EntityManager K W) × (transfer_components T E m i target e w
          ≡ (without_id i m, target', w))
        × IsValid T target'
        × ((k : K) (x : ℕ)
            → component_at T.eq target'.components k x ≡ moved T.eq m i e.raw_id target k x)
        × ((e' : Entity) → has_entity target' e' ≡ has_entity target e')
  unfolding transfer_components without_id
  transfer_components_lem [] target d v has empty = (
    target,
    refl,
    v,
    unfold component_at get_component_vector_by_id find in λ k x. ground arith,
    λ e'. refl,
  )
  transfer_components_lem ((k, ps) ∷ m) target d v has empty =
      elim (Bool-cases (ltb i (length ps) && not (get_or ps i nullptr == nullptr))) [
        | inl here ↦
            let p = get_or ps i nullptr in
            let empty_k = empty k (unfold find in ground arith) in
            let (t1, added, v1, reads1, same1) =
              add_component_lem T E target e k w v p (there_of_has T target v e has) empty_k in
            let (t', rest, v', reads', same') =
              transfer_components_lem m t1 d.1 v1 (same1 e ∙ has) (λ j in_m.
                let (in_all, ne) = in_tail T.eq k ps m i j in_m d.0 in
                ground (arith, ne, reads1 j e.raw_id, empty j in_all)) in
            (
              t',
              rw (here, added, rest) refl,
              v',
              λ j x. ground (
                arith,
                here,
                reads' j x,
                reads1 j x,
                component_at-cons T.eq k ps m i j,
                component_at-absent T.eq k ps m i d.0,
                ap (λ y. component_at T.eq m y i),
              ),
              λ e'. same' e' ∙ same1 e',
            )
        | inr missing ↦
            let (t', rest, v', reads', same') =
              transfer_components_lem m target d.1 v has
                (λ j in_m. empty j (in_tail T.eq k ps m i j in_m d.0).0) in
            let null : get_or ps i nullptr ≡ nullptr = ground (arith, get_or_beyond ps i nullptr) in
            let same_ps = set_same ps i null in
            (
              t',
              rw (missing, rest, same_ps) refl,
              v',
              λ j x. ground (
                arith,
                null,
                reads' j x,
                component_at-cons T.eq k ps m i j,
                component_at-absent T.eq k ps m i d.0,
                ap (λ y. component_at T.eq m y i),
              ),
              same',
            )
      ]

module _ {K W : Type 0} (T : TypeId K) (E : Env K W) (s target : EntityManager K W) (e : Entity)
    (w : W) (v : IsValid T s) (target_v : IsValid T target) where
  -- Between two valid managers, where this one has the entity and the new one has room,
  -- `transferEntityTo` returns an entity that the new manager did not have before. Both managers stay
  -- valid; this one has the entity no longer, nor components of its id, and the new one has the new
  -- entity, with all the components of the old, each at the same pointer; all else is as before.
  pub transfer_entity_to_lem :
      has_entity s e ≡ true
      → HasRoom target
      → (s' target' : EntityManager K W) × (e' : Entity) × (transfer_entity_to T E false s target e
            w
          ≡ ok (s', target', e', broadcast target.on_entity_added tt w))
        × IsValid T s'
        × IsValid T target'
        × (has_entity target e' ≡ false)
        × ((x : Entity) → has_entity s' x ≡ (if eq_entity e x then false else has_entity s x))
        × ((x : Entity)
            → has_entity target' x ≡ (if eq_entity e' x then true else has_entity target x))
        × ((k : K) (x : ℕ)
            → component_at T.eq s'.components k x
              ≡ (if e.raw_id == x then nullptr else component_at T.eq s.components k x))
        × ((k : K) (x : ℕ)
            → component_at T.eq target'.components k x
              ≡ moved T.eq s.components e.raw_id e'.raw_id target k x)
  unfolding transfer_entity_to without_entity exists_at
  transfer_entity_to_lem has room =
      let i = e.raw_id in
      let id = next_id target in
      let e' = entity id (get_or target.entity_versions id 0) in
      let t = with_entity target in
      let w1 = broadcast target.on_entity_added tt w in
      let (same, same_indexes, once) = with_entity-kept T E target w target_v room in
      let there = there_of_has T s v e has in
      let hands0 = has_entity-with_entity T E target w target_v room in
      let self : eq_entity e' e' ≡ true = (eq_entity_iff e' e').0.1 refl in
      let (t', all_moved, t'v, reads, hands) =
        transfer_components_lem T E i e' w1 s.components t v.distinct
          (with_entity-IsValid T E target w target_v room) (ground (arith, hands0 e', self))
          (λ k in_map.
            ap (λ m. component_at T.eq m k id) same
            ∙ target_v.owned k id (id_unused T E target w target_v room)) in
      (
        without_entity T s i,
        t',
        e',
        ground (
          arith,
          add_entity-with_entity T E target w target_v room,
          all_moved,
          has_entity_by_id s e v.parallel,
          there,
          v.parallel,
          at-get_or s.entity_versions i 0,
          get_or_beyond s.entity_existance_flags i false,
        ),
        without_entity-IsValid T s i v there,
        t'v,
        ground (
          arith,
          has_entity_by_id target e' target_v.parallel,
          id_unused T E target w target_v room,
        ),
        has_entity-without_entity T s i v there e has,
        λ x. hands x ∙ hands0 x,
        component_at-without_entity T s i v there,
        λ k x.
            reads k x
            ∙ ap
                (λ m.
                  if id == x && not (component_at T.eq s.components k i == nullptr)
                  then component_at T.eq s.components k i
                  else component_at T.eq m k x)
                same,
      )
