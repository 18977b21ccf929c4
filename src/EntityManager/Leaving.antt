-- ===== src/EntityManager/Leaving.antt =====
-- entity_manager.h: the manager that `removeEntity` leaves.
use raccoon_ecs.Common.{
  ℕ, ◌+◌, ◌%◌, ◌<◌, ◌≡◌, ◌≢◌, refl, true, false, not, List, [], ◌∷◌, ◌++◌, length, get_or, elem,
  Unique, ℕ_discrete, arith, set, ltb, ◌==◌, if◌then◌else◌, ◌&&◌, inl, inr, ◌⊎◌, length-set,
  get_or_beyond, get_or-set, elem-append_end, Unique-append_end, lt-of-get_or_ne, Bool-cases,
}
use raccoon_ecs.Outcome.{Ptr, nullptr, ok}
use raccoon_ecs.Env.{Env, call_deleter}
use raccoon_ecs.Env.Deleting.{HasDeleter, call_deleter-HasDeleter}
use raccoon_ecs.Entity.{Entity, entity, u32_mod, eq_entity}
use raccoon_ecs.TypeId.{TypeId}
use raccoon_ecs.ComponentMap.{ComponentMap, component_at}
use raccoon_ecs.ComponentMap.Without.{
  without_id, set_same, component_at-without_id, Distinct-without_id, length_vector-without_id,
}
use raccoon_ecs.Indexes.{on_entity_removed}
use raccoon_ecs.Indexes.Events.{on_entity_removed-IsConsistent}
use raccoon_ecs.EntityManager.{EntityManager}
use raccoon_ecs.EntityManager.Entities.{exists_at, has_entity, remove_components}
use raccoon_ecs.EntityManager.Adding.{has_entity_by_id}
use raccoon_ecs.EntityManager.Invariant.{IsValid}

module _ {K W : Type 0} (E : Env K W) where
  -- The factory knows all the types that a component map has vectors for.
  abbrev pub KnowsTypes : ComponentMap K → Type 0
  KnowsTypes [] = Unit
  KnowsTypes ((k, ps) ∷ m) = HasDeleter E k × KnowsTypes m

  -- What is to hold before the loop of `removeEntity` for the vectors that are left, so that each of
  -- its deletions returns.
  pub record Removes (i : ℕ) (P : ComponentMap K → W → Type 0) : Type 0 where
    pub deletes :
        (k : K) (ps : List Ptr) (m : ComponentMap K) (w : W)
        → P ((k, ps) ∷ m) w
        → get_or ps i nullptr ≢ nullptr
        → (w' : W) × (call_deleter E k (get_or ps i nullptr) w ≡ ok w') × P m w'
    pub skips :
        (k : K) (ps : List Ptr) (m : ComponentMap K) (w : W)
        → P ((k, ps) ∷ m) w
        → get_or ps i nullptr ≡ nullptr
        → P m w

  pub remove_components-without_id :
      (i : ℕ) (P : ComponentMap K → W → Type 0)
      → Removes i P
      → (m : ComponentMap K) (w : W) → P m w
      → (w' : W) × (remove_components E i m w ≡ ok (without_id i m, w')) × P [] w'
  unfolding remove_components without_id
  remove_components-without_id i P r [] w before = (w, refl, before)
  remove_components-without_id i P r ((k, ps) ∷ m) w before =
      elim (Bool-cases (ltb i (length ps) && not (get_or ps i nullptr == nullptr))) [
        | inl there ↦
            let (w1, deleted, after) = r.deletes k ps m w before (ground (arith, there)) in
            let (w', rest, done) = remove_components-without_id i P r m w1 after in
            (w', rw (there, deleted, rest) refl, done)
        | inr missing ↦
            let none_there : get_or ps i nullptr ≡ nullptr =
              ground (arith, missing, get_or_beyond ps i nullptr) in
            let (w', rest, done) =
              remove_components-without_id i P r m w (r.skips k ps m w before none_there) in
            let same = set_same ps i none_there in (w', rw (missing, rest, same) refl, done)
      ]

  pub known-Removes : (i : ℕ) → Removes i (λ m w. KnowsTypes m)
  known-Removes i = record {
    deletes = λ k ps m w known real.
        let (w', deleted) = call_deleter-HasDeleter E k (get_or ps i nullptr) w known.0 in
        (w', deleted, known.1);
    skips = λ k ps m w known e. known.1;
  }

module _ {K W : Type 0} (T : TypeId K) (s : EntityManager K W) (i : ℕ) where
  -- The manager after the removal of an entity with this id.
  unfoldable pub without_entity : EntityManager K W
  without_entity =
      let new_version = (get_or s.entity_versions i 0 + 1) % u32_mod in
      record s {
        components = without_id i s.components;
        indexes = on_entity_removed s.indexes i;
        entity_existance_flags = set s.entity_existance_flags i false;
        entity_versions = set s.entity_versions i new_version;
        free_entity_ids =
            if new_version == 0 then s.free_entity_ids else s.free_entity_ids ++ i ∷ [];
      }

  module _ (v : IsValid T s) (there : exists_at s i ≡ true) where
    inside : i < length s.entity_existance_flags
    unfolding exists_at
    inside = lt-of-get_or_ne s.entity_existance_flags i false (ground arith)

    pub exists-without_entity :
        (j : ℕ) → exists_at without_entity j ≡ (if i == j then false else exists_at s j)
    unfolding exists_at without_entity
    exists-without_entity j = get_or-set s.entity_existance_flags i j false false inside

    pub version-without_entity :
        (j : ℕ)
        → get_or without_entity.entity_versions j 0 ≡ (
            if i == j
            then (get_or s.entity_versions i 0 + 1) % u32_mod
            else get_or s.entity_versions j 0)
    unfolding without_entity
    version-without_entity j =
        get_or-set s.entity_versions i j ((get_or s.entity_versions i 0 + 1) % u32_mod) 0
          (omega (arith, inside, v.parallel))

    pub not_free : elem ℕ_discrete i s.free_entity_ids ≡ false
    not_free = ground (arith, v.free_unused i, there)

    pub free-without_entity :
        Unique ℕ_discrete without_entity.free_entity_ids
        × ((j : ℕ)
            → elem ℕ_discrete j without_entity.free_entity_ids ≡ true
            → (i ≡ j) ⊎ (elem ℕ_discrete j s.free_entity_ids ≡ true))
    unfolding without_entity
    free-without_entity = (
      ground (arith, v.free_once, Unique-append_end i s.free_entity_ids v.free_once not_free),
      λ j h. ground (arith, elem-append_end j i s.free_entity_ids),
    )

    -- An id whose version has run through all its values is not used again.
    pub retired-without_entity :
        get_or without_entity.entity_versions i 0 ≡ 0
        → elem ℕ_discrete i without_entity.free_entity_ids ≡ false
    unfolding without_entity
    retired-without_entity zero_version = ground (
      arith,
      not_free,
      get_or-set s.entity_versions i i ((get_or s.entity_versions i 0 + 1) % u32_mod) 0,
      inside,
      v.parallel,
    )

    pub component_at-without_entity :
        (k : K) (j : ℕ)
        → component_at T.eq without_entity.components k j
          ≡ (if i == j then nullptr else component_at T.eq s.components k j)
    unfolding without_entity
    component_at-without_entity = component_at-without_id T.eq i s.components

    pub length-without_entity :
        (length without_entity.entity_versions ≡ length s.entity_versions)
        × (length without_entity.entity_existance_flags ≡ length s.entity_existance_flags)
    unfolding without_entity
    length-without_entity =
        (length-set s.entity_versions i _, length-set s.entity_existance_flags i false)

    pub without_entity-IsValid : IsValid T without_entity
    without_entity-IsValid = record {
      parallel = omega (arith, length-without_entity, v.parallel);
      few = omega (arith, length-without_entity, v.few);
      versions_fit = λ j. ground (arith, version-without_entity j, v.versions_fit j);
      free_unused = λ j h. ground (
        arith,
        free-without_entity.1 j h,
        inside,
        v.free_unused j,
        exists-without_entity j,
        length-without_entity,
      );
      free_once = free-without_entity.0;
      owned = λ k j h.
          ground (arith, component_at-without_entity k j, exists-without_entity j, v.owned k j);
      distinct = unfold without_entity in Distinct-without_id T.eq i s.components v.distinct;
      fits = λ k.
          unfold without_entity in
          omega (arith, length_vector-without_id T.eq i s.components k, v.fits k);
      consistent =
          unfold without_entity in
          on_entity_removed-IsConsistent T s.components (without_id i s.components) s.indexes i
            v.consistent (λ k. ground (arith, component_at-without_id T.eq i s.components k i))
            (λ k j ne. ground (arith, component_at-without_id T.eq i s.components k j));
    }

    pub has_entity-without_entity :
        (e : Entity)
        → has_entity s (entity i e.version) ≡ true
        → (e' : Entity)
        → has_entity without_entity e'
          ≡ (if eq_entity (entity i e.version) e' then false else has_entity s e')
    unfolding eq_entity
    has_entity-without_entity e has e' = ground (
      arith,
      has_entity_by_id without_entity e' (omega (arith, length-without_entity, v.parallel)),
      has_entity_by_id s e' v.parallel,
      has_entity_by_id s (entity i e.version) v.parallel,
      exists-without_entity e'.raw_id,
      version-without_entity e'.raw_id,
    )
