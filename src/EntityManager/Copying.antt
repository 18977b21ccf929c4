-- ===== src/EntityManager/Copying.antt =====
-- entity_manager.h: `copyEntitiesFrom`, `overrideBy` and the copy constructor.
use raccoon_ecs.Common.{
  false, ℕ, ◌≡◌, ◌≢◌, refl, List, [], ◌∷◌, none, some, arith, subst, find, Distinct, ensure, modify,
  find-ensure_self, find-ensure_ne, find-modify_self, find-modify_ne, ensure-Distinct,
  modify-Distinct, Option-cases, inl, inr, ite,
}
use raccoon_ecs.Outcome.{Ptr, nullptr, ok}
use raccoon_ecs.Env.{Env}
use raccoon_ecs.Entity.{Entity}
use raccoon_ecs.TypeId.{TypeId}
use raccoon_ecs.ComponentMap.{
  ComponentMap, component_at, get_component_vector_by_id, get_or_create_component_vector_by_id,
}
use raccoon_ecs.Indexes.{no_indexes}
use raccoon_ecs.Indexes.Registry.{no_indexes-IsConsistent}
use raccoon_ecs.EntityManager.{EntityManager, new_manager}
use raccoon_ecs.EntityManager.Entities.{exists_at, has_entity}
use raccoon_ecs.EntityManager.Invariant.{IsValid}
use raccoon_ecs.EntityManager.Leaving.{KnowsTypes}
use raccoon_ecs.EntityManager.Storage.{
  clone_each, clone_components, copy_entities_from, override_by, copy_manager,
}
use raccoon_ecs.EntityManager.Clearing.{cleared, clear-cleared}
use raccoon_ecs.EntityManager.Cloners.{HasCloner, Clones, clone_each-Clones}
use raccoon_ecs.Env.Cloning.{IsClone}

module _ {K W : Type 0} (T : TypeId K) (E : Env K W) (cloners : (k : K) → HasCloner E k) where
  -- What the loop of `copyEntitiesFrom` makes of a component map.
  record Copied (original m m' : ComponentMap K) : Type 0 where
    old : (k : K) → find T.eq k original ≡ none → find T.eq k m' ≡ find T.eq k m
    new :
        (k : K) (ps : List Ptr)
        → find T.eq k original ≡ some ps
        → (qs : List Ptr) × (find T.eq k m' ≡ some qs) × Clones E k ps qs
    distinct : Distinct T.eq m → Distinct T.eq m'

  find-head :
      (k j : K) (qs : List Ptr) (m : ComponentMap K)
      → find T.eq j (modify T.eq k (λ _. qs) (get_or_create_component_vector_by_id T.eq m k))
        ≡ ite (T.eq k j) (some qs) (find T.eq j m)
  unfolding get_or_create_component_vector_by_id
  find-head k j qs m =
      let created = ensure T.eq k [] m in
      ground (
        arith,
        find-modify_self T.eq k (λ _. qs) created,
        find-ensure_self T.eq k [] m,
        find-modify_ne T.eq k j (λ _. qs) created,
        find-ensure_ne T.eq k j [] m,
      )

  head_entry :
      (k j : K) (ps rs : List Ptr) (original : ComponentMap K)
      → k ≡ j
      → find T.eq j ((k, ps) ∷ original) ≡ some rs
      → ◌≡◌ {A = K × List Ptr} (k, ps) (j, rs)
  unfolding find
  head_entry k j ps rs original same e =
      let vectors : ps ≡ rs = ground (arith, same, e) in rw (same, vectors) refl

  clone_components-Copied :
      (original m : ComponentMap K) (w : W)
      → Distinct T.eq original
      → (m' : ComponentMap K) × (w' : W) × (clone_components T E original m w ≡ ok (m', w'))
        × Copied original m m'
  unfolding clone_components get_or_create_component_vector_by_id find
  clone_components-Copied [] m w d = (
    m,
    w,
    refl,
    record { old = λ k e. refl; new = λ k ps e. absurd (ground (arith, e)); distinct = λ h. h },
  )
  clone_components-Copied ((k, ps) ∷ original) m w d =
      let (f, known, nulls) = cloners k w in
      let w1 = (E.get_clone_fn k w).1 in
      let qs = (clone_each f ps w1).0 in
      let m1 = modify T.eq k (λ _. qs) (get_or_create_component_vector_by_id T.eq m k) in
      let (m', w', rest, copied) = clone_components-Copied original m1 (clone_each f ps w1).1 d.1 in
      (
        m',
        w',
        rw (known, clone_components) rest,
        record {
          old = λ j e. ground (arith, copied.old j, find-head k j qs m, e);
          new = λ j rs e. elim (T.eq k j) [
            | yes same ↦ (
              qs,
              ground (arith, copied.old j, find-head k j qs m, same, d.0),
              subst (λ (r : K × List Ptr). Clones E r.0 r.1 qs)
                  (head_entry k j ps rs original same e)
                  (clone_each-Clones E k f w known nulls ps w1),
            )
            | no ne ↦ copied.new j rs (ground (arith, e, ne))
          ];
          distinct = λ h. copied.distinct (
              modify-Distinct T.eq k (λ _. qs) (ensure T.eq k [] m)
                (ensure-Distinct T.eq k [] m h));
        },
      )

module _ {K W : Type 0} (T : TypeId K) (E : Env K W) where
  -- The manager has the entities of the original; it has a component for each of theirs, which the
  -- factory cloned, and no other.
  pub record IsCopy (original s : EntityManager K W) : Type 0 where
    pub entities : (e : Entity) → has_entity s e ≡ has_entity original e
    pub nulls :
        (k : K) (i : ℕ)
        → component_at T.eq original.components k i ≡ nullptr
        → component_at T.eq s.components k i ≡ nullptr
    pub clones :
        (k : K) (i : ℕ)
        → component_at T.eq original.components k i ≢ nullptr
        → IsClone E k
            (component_at T.eq original.components k i)
            (component_at T.eq s.components k i)

  module _ (cloners : (k : K) → HasCloner E k) (original : EntityManager K W)
      (v : IsValid T original) where
    vectors :
        (m' : ComponentMap K)
        → Copied T E cloners original.components [] m'
        → (k : K)
        → Clones E k
            (get_component_vector_by_id T.eq original.components k)
            (get_component_vector_by_id T.eq m' k)
    unfolding get_component_vector_by_id find
    vectors m' c k = elim (Option-cases (find T.eq k original.components)) [
      | inl absent ↦
          let none_new : find T.eq k m' ≡ none = c.old k absent in
          rw (absent, none_new) (refl, λ i _. refl, λ i real. absurd (real refl))
      | inr (ps, there) ↦ let (qs, new, clones) = c.new k ps there in rw (there, new) clones
    ]

    -- A manager with nothing in it takes over the entities and the clones.
    copied :
        (s : EntityManager K W) (w : W)
        → s.components ≡ []
        → s.indexes ≡ no_indexes
        → (s' : EntityManager K W) × (w' : W) × (copy_entities_from T E s original w ≡ ok (s', w'))
          × IsValid T s'
          × IsCopy original s'
    unfolding copy_entities_from
    copied s w empty none_indexed =
        let (m', w', done, c) =
          clone_components-Copied T E cloners original.components [] w v.distinct in
        let s' = record s {
          entity_existance_flags = original.entity_existance_flags;
          entity_versions = original.entity_versions;
          free_entity_ids = original.free_entity_ids;
          components = m';
        } in
        (
          s',
          w',
          rw (empty, done) refl,
          record {
            parallel = v.parallel;
            few = v.few;
            versions_fit = v.versions_fit;
            free_unused = unfold exists_at in v.free_unused;
            free_once = v.free_once;
            owned = unfold exists_at component_at in λ k i h. (vectors m' c k).1 i (v.owned k i h);
            distinct = c.distinct tt;
            fits = λ k. omega (arith, (vectors m' c k).0, v.fits k);
            consistent = rw none_indexed (no_indexes-IsConsistent T m');
          },
          record {
            entities = λ e. unfold has_entity in refl;
            nulls = unfold component_at in λ k i. (vectors m' c k).1 i;
            clones = unfold component_at in λ k i. (vectors m' c k).2 i;
          },
        )

    -- If the factory knows how to clone all component types, and clones null to null, then the copy
    -- constructor returns, for a valid original, and so does `overrideBy` by another manager, in any
    -- manager whose component types the factory knows how to delete: the result is a valid manager
    -- with the entities of the original. Wherever the original has a component, it has what the cloning
    -- function of the type made from that, and where the original has none it has none.
    pub copying_lem :
        ((w : W)
          → (s' : EntityManager K W) × (w' : W) × (copy_manager T E original w ≡ ok (s', w'))
            × IsValid T s'
            × IsCopy original s')
        × ((s : EntityManager K W) (w : W)
            → KnowsTypes E s.components
            → (s' : EntityManager K W) × (w' : W) × (override_by T E false s original w
                ≡ ok (s', w'))
              × IsValid T s'
              × IsCopy original s')
    unfolding copy_manager override_by
    copying_lem = (
      λ w. copied new_manager w (unfold new_manager in refl) (unfold new_manager in refl),
      λ s w known.
          let (w1, clearing) = clear-cleared T E s w known in
          let (s', w', done, valid, copy) = copied (cleared T E s) w1 refl refl in
          (s', w', rw clearing done, valid, copy),
    )
