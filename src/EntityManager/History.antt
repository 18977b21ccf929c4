-- ===== src/EntityManager/History.antt =====
-- entity_manager.h: entity handles over the operations of a manager.
use raccoon_ecs.Common.{
  ◌≡◌, refl, true, false, List, [], ◌∷◌, arith, inl, inr, ap, sym, subst, ◌∙◌, Bool-cases,
}
use raccoon_ecs.Outcome.{ok-injective, Ptr, nullptr, ok}
use raccoon_ecs.Env.{Env}
use raccoon_ecs.Env.Deleting.{HasDeleter}
use raccoon_ecs.Entity.{Entity}
use raccoon_ecs.TypeId.{TypeId}
use raccoon_ecs.ComponentMap.{ComponentMap, component_at}
use raccoon_ecs.Indexes.Query.{IsPack}
use raccoon_ecs.EntityManager.{EntityManager, new_manager}
use raccoon_ecs.EntityManager.Entities.{has_entity, exists_at, add_entity, remove_entity}
use raccoon_ecs.EntityManager.Components.{add_component, remove_component}
use raccoon_ecs.EntityManager.Queries.{init_index}
use raccoon_ecs.EntityManager.Querying.{init_index-IsValid}
use raccoon_ecs.EntityManager.Storage.{clear_caches}
use raccoon_ecs.EntityManager.Clearing.{clear_caches_lem}
use raccoon_ecs.EntityManager.Adding.{HasRoom, add_entity-with_entity, has_entity_by_id}
use raccoon_ecs.EntityManager.Removing.{remove_entity_refused, remove_entity-without_entity}
use raccoon_ecs.EntityManager.Leaving.{KnowsTypes, known-Removes}
use raccoon_ecs.EntityManager.Owning.{
  add_component_lem, remove_component_lem, component_of_no_entity,
}
use raccoon_ecs.EntityManager.Invariant.{IsValid, new_manager-IsValid}
use raccoon_ecs.EntityManager.Gone.{
  IsGone, SameEntities, IsGone-same, Keeps, with_entity-Keeps, without_entity-Keeps,
  without_entity-IsGone, IsGone-absent, add_component-SameEntities, remove_component-SameEntities,
}

module _ {K W : Type 0} (T : TypeId K) (E : Env K W) where
  -- One operation of a client that changes entities, components or indexes: an entity is added where
  -- an id is left, a component where the entity has none of its type. All queries change the manager
  -- as `initIndex` does. `clear`, which starts the versions again, transfers, `overrideBy` and what is
  -- scheduled are not among them.
  pub data Step (s : EntityManager K W) : EntityManager K W → Type 0 where
    entity_added :
        {s' : EntityManager K W} (e : Entity) (w w' : W)
        → HasRoom s
        → add_entity E s w ≡ ok (s', e, w')
        → Step s s'
    entity_removed :
        {s' : EntityManager K W} (e : Entity) (w w' : W)
        → remove_entity E s e w ≡ ok (s', w')
        → Step s s'
    component_added :
        {s' : EntityManager K W} (e : Entity) (p : Ptr) (k : K) (w w' : W)
        → component_at T.eq s.components k e.raw_id ≡ nullptr
        → add_component T E s e p k w ≡ (s', w')
        → Step s s'
    component_removed :
        {s' : EntityManager K W} (e : Entity) (k : K) (w w' : W)
        → remove_component T E s e k w ≡ ok (s', w')
        → Step s s'
    index_made :
        {s' : EntityManager K W} (pack : List K)
        → IsPack T pack
        → init_index T s pack ≡ s'
        → Step s s'
    caches_cleared : {s' : EntityManager K W} → clear_caches s ≡ s' → Step s s'

  pub data Steps (s : EntityManager K W) : EntityManager K W → Type 0 where
    start : Steps s s
    later : {t u : EntityManager K W} → Steps s t → Step t u → Steps s u

module _ {K W : Type 0} (T : TypeId K) (E : Env K W) (known : (k : K) → HasDeleter E k) where
  pub knows_all : (m : ComponentMap K) → KnowsTypes E m
  knows_all [] = tt
  knows_all ((k, ps) ∷ m) = (known k, knows_all m)

  remove_entity-Keeps :
      (s s' : EntityManager K W) (e : Entity) (w w' : W)
      → IsValid T s
      → remove_entity E s e w ≡ ok (s', w')
      → Keeps T s s' × (has_entity s e ≡ true → IsGone s' e)
  remove_entity-Keeps s s' e w w' v done = elim (Bool-cases (has_entity s e)) [
    | inl has ↦
        let there : exists_at s e.raw_id ≡ true = ground (arith, has_entity_by_id s e v.parallel) in
        let same =
          ap (λ r. r.0)
            (ok-injective (
              sym
                (remove_entity-without_entity T E s e w v (λ m u. KnowsTypes E m)
                  (known-Removes E e.raw_id) has (knows_all s.components)).1
              ∙ done)) in
        (
          subst (Keeps T s) same (without_entity-Keeps T s v e.raw_id there),
          λ _. subst (λ t. IsGone t e) same (without_entity-IsGone T s v e has),
        )
    | inr missing ↦
        let same =
          ap (λ r. r.0) (ok-injective (sym (remove_entity_refused T E s e w v missing) ∙ done)) in
        (subst (Keeps T s) same (record { valid = v; gone = λ _ g. g }), λ has. absurd (cc))
  ]

  pub add_component-Keeps :
      (s s' : EntityManager K W) (e : Entity) (p : Ptr) (k : K) (w w' : W)
      → IsValid T s
      → component_at T.eq s.components k e.raw_id ≡ nullptr
      → add_component T E s e p k w ≡ (s', w')
      → Keeps T s s'
  add_component-Keeps s s' e p k w w' v empty done = record {
    valid = elim (Bool-cases (exists_at s e.raw_id)) [
      | inl there ↦
          let (t, e1, valid, reads, same) = add_component_lem T E s e k w v p there empty in
          subst (IsValid T) (ap (λ r. r.0) (sym e1 ∙ done)) valid
      | inr missing ↦
          subst (IsValid T)
            (ap (λ r. r.0) (sym (component_of_no_entity T E s e k w p missing).0 ∙ done)) v
    ];
    gone = λ e' g.
        IsGone-same s s' e'
          (subst (SameEntities s) (ap (λ r. r.0) done) (add_component-SameEntities T E s e p k w))
          g;
  }

  remove_component-Keeps :
      (s s' : EntityManager K W) (e : Entity) (k : K) (w w' : W)
      → IsValid T s
      → remove_component T E s e k w ≡ ok (s', w')
      → Keeps T s s'
  remove_component-Keeps s s' e k w w' v done = elim (Bool-cases (exists_at s e.raw_id)) [
    | inl there ↦
        let (t, w'', e1, valid, reads, entities, deletion) =
          remove_component_lem T E s e k w v there (known k) in
        let same = ap (λ r. r.0) (ok-injective (sym e1 ∙ done)) in
        record {
          valid = subst (IsValid T) same valid;
          gone = λ e' g.
              IsGone-same s s' e' (remove_component-SameEntities T E s e k w (known k) s' w' done)
                g;
        }
    | inr missing ↦
        let same =
          ap (λ r. r.0)
            (ok-injective (sym (component_of_no_entity T E s e k w 0 missing).1 ∙ done)) in
        subst (Keeps T s) same (record { valid = v; gone = λ _ g. g })
  ]

  Step-Keeps : (s s' : EntityManager K W) → IsValid T s → Step T E s s' → Keeps T s s'
  Step-Keeps s s' v (entity_added e w w' room done) =
      subst (Keeps T s)
        (ap (λ r. r.0) (ok-injective (sym (add_entity-with_entity T E s w v room) ∙ done)))
        (with_entity-Keeps T s v E w room)
  Step-Keeps s s' v (entity_removed e w w' done) = (remove_entity-Keeps s s' e w w' v done).0
  Step-Keeps s s' v (component_added e p k w w' empty done) =
      add_component-Keeps s s' e p k w w' v empty done
  Step-Keeps s s' v (component_removed e k w w' done) = remove_component-Keeps s s' e k w w' v done
  Step-Keeps s s' v (index_made pack named done) = subst (Keeps T s) done (record {
    valid = init_index-IsValid T s pack v named;
    gone = λ e. IsGone-same s (init_index T s pack) e (unfold init_index in (refl, refl, refl));
  })
  Step-Keeps s s' v (caches_cleared done) = subst (Keeps T s) done (record {
    valid = (clear_caches_lem T E s v).0;
    gone = λ e. IsGone-same s (clear_caches s) e (unfold clear_caches in (refl, refl, refl));
  })

  Steps-Keeps : (s s' : EntityManager K W) → IsValid T s → Steps T E s s' → Keeps T s s'
  Steps-Keeps s s' v start = record { valid = v; gone = λ _ g. g }
  Steps-Keeps s u v (later {t} before step) =
      let to_t = Steps-Keeps s t v before in
      let to_u = Step-Keeps t u to_t.valid step in
      record { valid = to_u.valid; gone = λ e g. to_u.gone e (to_t.gone e g) }

  -- If the factory knows all component types, whatever operations of `Step` a client runs on a new
  -- manager, in whatever order, the manager satisfies the invariant. These are `addEntity` while an id
  -- is left, `removeEntity`, `addComponent` of a type that the entity lacks, `removeComponent`, the
  -- queries for a pack of one type at least and none twice, and `clearCaches`.
  pub Steps-IsValid : (s : EntityManager K W) → Steps T E new_manager s → IsValid T s
  Steps-IsValid s steps = (Steps-Keeps new_manager s (new_manager-IsValid T) steps).valid

  -- If the factory knows all component types, then an entity that is removed from a valid manager
  -- stays removed: after any operations of `Step` that follow, its id may have an entity again, but
  -- `hasEntity` of the old handle is false. These operations are `addEntity`, `removeEntity`,
  -- `addComponent` of a type that the entity lacks, `removeComponent`, queries and `clearCaches`; after
  -- `clear`, `overrideBy` or a transfer nothing is said.
  pub stale_handle :
      (s s' s'' : EntityManager K W) (e : Entity) (w w' : W)
      → IsValid T s
      → has_entity s e ≡ true
      → remove_entity E s e w ≡ ok (s', w')
      → Steps T E s' s''
      → has_entity s'' e ≡ false
  stale_handle s s' s'' e w w' v has done steps =
      let (kept, gone) = remove_entity-Keeps s s' e w w' v done in
      IsGone-absent s'' e ((Steps-Keeps s' s'' kept.valid steps).gone e (gone has))
