-- ===== src/EntityManager/Scheduled.antt =====
-- entity_manager.h: the first two loops of `executeScheduledActions`, on components.
use raccoon_ecs.Common.{
  ◌≡◌, refl, List, [], ◌∷◌, arith, Bool-cases, inl, inr, ◌∙◌, ℕ, get_or, ap, subst, ite, ◌==◌, ◌&&◌,
  true, false, if◌then◌else◌,
}
use raccoon_ecs.Outcome.{Ptr, nullptr, ok}
use raccoon_ecs.Env.{Env, remove_component_from_non_existent}
use raccoon_ecs.Env.Deleting.{HasDeleter}
use raccoon_ecs.Entity.{Entity}
use raccoon_ecs.TypeId.{TypeId}
use raccoon_ecs.ComponentMap.{component_at}
use raccoon_ecs.EntityManager.{EntityManager, ComponentToAdd, ComponentToRemove}
use raccoon_ecs.EntityManager.Entities.{has_entity, exists_at, remove_entity, remove_existing}
use raccoon_ecs.EntityManager.Components.{
  add_component, add_component_to_entity, remove_component, unindex,
}
use raccoon_ecs.EntityManager.Schedule.{add_scheduled, remove_scheduled_components}
use raccoon_ecs.EntityManager.Planned.{added, dropped}
use raccoon_ecs.EntityManager.Owning.{
  add_component_lem, remove_component_lem, component_of_no_entity,
}
use raccoon_ecs.EntityManager.Gone.{add_component-SameEntities, SameEntities}
use raccoon_ecs.EntityManager.History.{add_component-Keeps}
use raccoon_ecs.EntityManager.Invariant.{IsValid}

module _ {K W : Type 0} where
  -- The managers have the same entities.
  abbrev pub SameHandles : EntityManager K W → EntityManager K W → Type 0
  SameHandles s s' = (e : Entity) → has_entity s' e ≡ has_entity s e

  SameHandles-SameEntities : (s s' : EntityManager K W) → SameEntities s s' → SameHandles s s'
  unfolding has_entity
  SameHandles-SameEntities s s' (versions, flags, free) e = rw (versions, flags) refl

  -- The operation scheduled nothing and executed nothing.
  abbrev pub SameQueues : EntityManager K W → EntityManager K W → Type 0
  SameQueues s s' =
      (s'.scheduled_component_additions ≡ s.scheduled_component_additions)
      × (s'.scheduled_component_removals ≡ s.scheduled_component_removals)
      × (s'.scheduled_entity_removals ≡ s.scheduled_entity_removals)

  pub remove_entity-SameQueues :
      (E : Env K W) (s s' : EntityManager K W) (e : Entity) (w w' : W)
      → remove_entity E s e w ≡ ok (s', w')
      → SameQueues s s'
  unfolding remove_entity remove_existing
  remove_entity-SameQueues E s s' e w w' done = ground (arith, done)

module _ {K W : Type 0} (T : TypeId K) (E : Env K W) (s : EntityManager K W) (e : Entity) where
  add_component-SameQueues :
      (p : Ptr) (k : K) (w : W) → SameQueues s (add_component T E s e p k w).0
  unfolding add_component add_component_to_entity
  add_component-SameQueues p k w = ground arith

  remove_component-SameQueues :
      (k : K) (w : W) (s' : EntityManager K W) (w' : W)
      → remove_component T E s e k w ≡ ok (s', w')
      → SameQueues s s'
  unfolding remove_component unindex
  remove_component-SameQueues k w s' w' done = ground (arith, done)

module _ {K W : Type 0} (T : TypeId K) where
  -- A part of the execution that keeps the entities.
  pub record Ran (s s' : EntityManager K W) : Type 0 where
    pub valid : IsValid T s'
    pub handles : SameHandles s s'
    pub queues : SameQueues s s'

  Ran-then : (s t u : EntityManager K W) → Ran s t → Ran t u → Ran s u
  Ran-then s t u a b = record {
    valid = b.valid;
    handles = λ e. b.handles e ∙ a.handles e;
    queues = (b.queues.0 ∙ a.queues.0, b.queues.1 ∙ a.queues.1, b.queues.2 ∙ a.queues.2);
  }

module _ {K W : Type 0} (T : TypeId K) (s : EntityManager K W) (v : IsValid T s) where
  -- What is scheduled is no part of the invariant.
  pub rescheduled-IsValid :
      (adds : List (ComponentToAdd K)) (removals : List (ComponentToRemove K)) (gone : List Entity)
      → IsValid T (record s {
        scheduled_component_additions = adds;
        scheduled_component_removals = removals;
        scheduled_entity_removals = gone;
      })
  rescheduled-IsValid adds removals gone = record {
    parallel = v.parallel;
    few = v.few;
    versions_fit = v.versions_fit;
    free_unused = unfold exists_at in v.free_unused;
    free_once = v.free_once;
    owned = unfold exists_at in v.owned;
    distinct = v.distinct;
    fits = v.fits;
    consistent = v.consistent;
  }

module _ {K W : Type 0} (T : TypeId K) (E : Env K W) where
  -- Each component that is to be added is one that its entity lacks by then.
  abbrev pub AddsFresh : List (ComponentToAdd K) → EntityManager K W → W → Type 0
  AddsFresh [] s w = Unit
  AddsFresh (a ∷ rest) s w =
      (component_at T.eq s.components a.type_id a.entity.raw_id ≡ nullptr)
      × AddsFresh rest (add_component T E s a.entity a.component a.type_id w).0
          (add_component T E s a.entity a.component a.type_id w).1

  add_component-at :
      (a : ComponentToAdd K) (s : EntityManager K W) (w : W) (j : K) (x : ℕ)
      → IsValid T s
      → component_at T.eq s.components a.type_id a.entity.raw_id ≡ nullptr
      → component_at T.eq (add_component T E s a.entity a.component a.type_id w).0.components j x
        ≡ ite
            (T.eq a.type_id j)
            (if exists_at s x && a.entity.raw_id == x
              then a.component
              else component_at T.eq s.components j x)
            (component_at T.eq s.components j x)
  add_component-at a s w j x v empty =
      let i = a.entity.raw_id in
      let same : (i == x) ≡ true → exists_at s i ≡ exists_at s x =
        λ h. ap (exists_at s) (ground (arith, h)) in
      elim (Bool-cases (exists_at s i)) [
        | inl there ↦
            let (s', done, valid, reads, hands) =
              add_component_lem T E s a.entity a.type_id w v a.component there empty in
            ap (λ (q : EntityManager K W × W). component_at T.eq q.0.components j x) done
            ∙ reads j x
            ∙ ground (arith, same, there)
        | inr missing ↦
            ap (λ (q : EntityManager K W × W). component_at T.eq q.0.components j x)
              (component_of_no_entity T E s a.entity a.type_id w a.component missing).0
            ∙ ground (arith, same, missing)
      ]

module _ {K W : Type 0} (T : TypeId K) (E : Env K W) (known : (k : K) → HasDeleter E k) where
  pub add_scheduled-Ran :
      (adds : List (ComponentToAdd K)) (s : EntityManager K W) (w : W)
      → IsValid T s
      → AddsFresh T E adds s w
      → Ran T s (add_scheduled T E adds s w).0
  unfolding add_scheduled
  add_scheduled-Ran [] s w v fresh = record {
    valid = v;
    handles = λ e. refl;
    queues = (refl, refl, refl);
  }
  add_scheduled-Ran (a ∷ rest) s w v fresh =
      let r = add_component T E s a.entity a.component a.type_id w in
      let kept =
        add_component-Keeps T E known s r.0 a.entity a.component a.type_id w r.1 v fresh.0 refl in
      Ran-then T s r.0 _
        (record {
          valid = kept.valid;
          handles =
              SameHandles-SameEntities s r.0
                (add_component-SameEntities T E s a.entity a.component a.type_id w);
          queues = add_component-SameQueues T E s a.entity a.component a.type_id w;
        })
        (add_scheduled-Ran rest r.0 r.1 kept.valid fresh.1)

  -- The same loop, by what becomes of each component.
  pub add_scheduled-added :
      (adds : List (ComponentToAdd K)) (s : EntityManager K W) (w : W) (j : K) (x : ℕ)
      → IsValid T s
      → AddsFresh T E adds s w
      → component_at T.eq (add_scheduled T E adds s w).0.components j x
        ≡ added T j x (exists_at s x) adds (component_at T.eq s.components j x)
  unfolding add_scheduled
  add_scheduled-added [] s w j x v fresh = refl
  add_scheduled-added (a ∷ rest) s w j x v fresh =
      let r = add_component T E s a.entity a.component a.type_id w in
      let kept =
        add_component-Keeps T E known s r.0 a.entity a.component a.type_id w r.1 v fresh.0 refl in
      let same = add_component-SameEntities T E s a.entity a.component a.type_id w in
      let there : exists_at r.0 x ≡ exists_at s x =
        unfold exists_at in ap (λ fs. get_or fs x false) same.1 in
      let p = component_at T.eq r.0.components j x in
      add_scheduled-added rest r.0 r.1 j x kept.valid fresh.1
      ∙ ap (λ b. added T j x b rest p) there
      ∙ ap (added T j x (exists_at s x) rest) (add_component-at T E a s w j x v fresh.0)

  remove_component-Ran :
      (r : ComponentToRemove K) (s : EntityManager K W) (w : W)
      → IsValid T s
      → (s' : EntityManager K W) × (w' : W) × (remove_component T E s r.entity r.type_id w
          ≡ ok (s', w'))
        × Ran T s s'
        × ((j : K) (x : ℕ)
            → component_at T.eq s'.components j x
              ≡ ite
                  (T.eq r.type_id j)
                  (if r.entity.raw_id == x then nullptr else component_at T.eq s.components j x)
                  (component_at T.eq s.components j x))
  remove_component-Ran r s w v = elim (Bool-cases (exists_at s r.entity.raw_id)) [
    | inl there ↦
        let (s', w', done, v', reads, same, deletion) =
          remove_component_lem T E s r.entity r.type_id w v there (known r.type_id) in
        (
          s',
          w',
          done,
          record {
            valid = v';
            handles = same;
            queues = remove_component-SameQueues T E s r.entity r.type_id w s' w' done;
          },
          reads,
        )
    | inr missing ↦ (
      s,
      E.report (remove_component_from_non_existent r.type_id r.entity.raw_id) w,
      (component_of_no_entity T E s r.entity r.type_id w nullptr missing).1,
      record { valid = v; handles = λ e. refl; queues = (refl, refl, refl) },
      λ j x.
          let none : r.entity.raw_id ≡ x → component_at T.eq s.components j x ≡ nullptr = λ h.
            subst (λ y. component_at T.eq s.components j y ≡ nullptr) h
              (v.owned j r.entity.raw_id missing) in
          ground (arith, none),
    )
  ]

  pub remove_scheduled_components-Ran :
      (rs : List (ComponentToRemove K)) (s : EntityManager K W) (w : W)
      → IsValid T s
      → (s' : EntityManager K W) × (w' : W) × (remove_scheduled_components T E rs s w ≡ ok (s', w'))
        × Ran T s s'
        × ((j : K) (x : ℕ)
            → component_at T.eq s'.components j x
              ≡ dropped T j x rs (component_at T.eq s.components j x))
  unfolding remove_scheduled_components
  remove_scheduled_components-Ran [] s w v = (
    s,
    w,
    refl,
    record { valid = v; handles = λ e. refl; queues = (refl, refl, refl) },
    λ j x. refl,
  )
  remove_scheduled_components-Ran (r ∷ rest) s w v =
      let (s1, w1, done1, ran1, reads1) = remove_component-Ran r s w v in
      let (s', w', done', ran', reads') = remove_scheduled_components-Ran rest s1 w1 ran1.valid in
      (
        s',
        w',
        rw (remove_scheduled_components, done1) done',
        Ran-then T s s1 s' ran1 ran',
        λ j x. reads' j x ∙ ap (dropped T j x rest) (reads1 j x),
      )
