-- ===== src/EntityManager/Adding.antt =====
-- entity_manager.h: `addEntity`.
use raccoon_ecs.Common.{
  get_elem?, some, ℕ, zero, suc, ◌≤◌, ◌<◌, ◌≡◌, ◌≢◌, refl, true, false, List, [], ◌∷◌, ◌++◌, length,
  get_or, elem, Unique, Distinct, ℕ_discrete, arith, set, back, pop_back, ◌==◌, if◌then◌else◌, ◌&&◌,
  ◌⊎◌, length-append, length-set, get_or_beyond, elem-back, elem-pop_back, Unique-pop_back, ap, sym,
  subst, ◌∙◌, get_or-set, get_or-push_back,
}
use raccoon_ecs.Outcome.{ok}
use raccoon_ecs.Env.{Env}
use raccoon_ecs.Entity.{Entity, entity, u32_mod, eq_entity}
use raccoon_ecs.TypeId.{TypeId}
use raccoon_ecs.ComponentMap.{component_at}
use raccoon_ecs.Indexes.Registry.{IsConsistent}
use raccoon_ecs.Indexes.Query.{FitsIds}
use raccoon_ecs.Delegates.{broadcast}
use raccoon_ecs.EntityManager.{EntityManager}
use raccoon_ecs.EntityManager.Entities.{exists_at, has_entity, at, add_entity}
use raccoon_ecs.EntityManager.Invariant.{IsValid}

pub at-get_or {ℓ} :
    {A : Type ℓ} (xs : List A) (i : ℕ) (d : A) → i < length xs → at xs i ≡ ok (get_or xs i d)
unfolding at
at-get_or [] i d h = absurd (omega arith)
at-get_or (x ∷ xs) zero d h = refl
at-get_or (x ∷ xs) (suc i) d h = at-get_or xs i d (omega arith)

pub at-get_elem? {ℓ} :
    {A : Type ℓ} (xs : List A) (i : ℕ) (x : A) → get_elem? xs i ≡ some x → at xs i ≡ ok x
unfolding at
at-get_elem? [] i x e = absurd (ground (arith, e))
at-get_elem? (y ∷ xs) zero x e = ground (arith, e)
at-get_elem? (y ∷ xs) (suc i) x e = at-get_elem? xs i x e

module _ {K W : Type 0} where
  -- `hasEntity` by the two tests that are left where the vectors are as long as one another.
  pub has_entity_by_id :
      (s : EntityManager K W) (e : Entity)
      → length s.entity_versions ≡ length s.entity_existance_flags
      → has_entity s e ≡ (get_or s.entity_versions e.raw_id 0 == e.version && exists_at s e.raw_id)
  unfolding has_entity exists_at
  has_entity_by_id s e same = ground (arith, get_or_beyond s.entity_existance_flags e.raw_id false)

  -- The id that `addEntity` uses, and the manager that it leaves.
  pub next_id : EntityManager K W → ℕ
  next_id s =
      if length s.free_entity_ids == 0 then length s.entity_versions else back s.free_entity_ids 0

  -- There is an id to be used again, or one more id that a `RawId` can hold.
  abbrev pub HasRoom : EntityManager K W → Type 0
  HasRoom s = (0 < length s.free_entity_ids) ⊎ (length s.entity_versions < u32_mod)

  unfoldable pub with_entity : EntityManager K W → EntityManager K W
  with_entity s =
      if length s.free_entity_ids == 0
      then record s {
        entity_versions = s.entity_versions ++ 0 ∷ [];
        entity_existance_flags = s.entity_existance_flags ++ true ∷ [];
      }
      else record s {
        free_entity_ids = pop_back s.free_entity_ids;
        entity_existance_flags = set s.entity_existance_flags (back s.free_entity_ids 0) true;
      }

module _ {K W : Type 0} (T : TypeId K) (E : Env K W) (s : EntityManager K W) (w : W)
    (v : IsValid T s) (room : HasRoom s) where
  id-lt : next_id s < u32_mod
  unfolding next_id
  id-lt = ground (
    arith,
    v.parallel,
    v.few,
    v.free_unused (back s.free_entity_ids 0),
    elem-back s.free_entity_ids 0,
  )

  -- The id has no entity yet, and its version is what the new entity gets.
  pub id_unused : exists_at s (next_id s) ≡ false
  unfolding next_id exists_at
  id_unused = ground (
    arith,
    v.parallel,
    v.free_unused (back s.free_entity_ids 0),
    elem-back s.free_entity_ids 0,
    get_or_beyond s.entity_existance_flags (length s.entity_versions) false,
  )

  pub next_id_free :
      (j : ℕ)
      → j < length s.entity_versions
      → elem ℕ_discrete j s.free_entity_ids ≡ false
      → next_id s ≢ j
  unfolding next_id
  next_id_free j inside used j_next =
      ground (arith, elem-back s.free_entity_ids 0, ap (λ x. elem ℕ_discrete x s.free_entity_ids))

  pub exists-with_entity :
      (j : ℕ) → exists_at (with_entity s) j ≡ (if next_id s == j then true else exists_at s j)
  unfolding next_id exists_at with_entity
  exists-with_entity j = ground (
    arith,
    v.parallel,
    v.free_unused (back s.free_entity_ids 0),
    elem-back s.free_entity_ids 0,
    get_or-push_back s.entity_existance_flags true j false,
    get_or-set s.entity_existance_flags (back s.free_entity_ids 0) j true false,
  )

  pub version-with_entity :
      (j : ℕ) → get_or (with_entity s).entity_versions j 0 ≡ get_or s.entity_versions j 0
  unfolding with_entity
  version-with_entity j = ground (
    arith,
    get_or-push_back s.entity_versions 0 j 0,
    get_or_beyond s.entity_versions (length s.entity_versions) 0,
  )

  pub add_entity-with_entity :
      add_entity E s w
      ≡ ok (
        with_entity s,
        entity (next_id s) (get_or s.entity_versions (next_id s) 0),
        broadcast s.on_entity_added tt w,
      )
  unfolding next_id with_entity add_entity
  add_entity-with_entity = ground (
    arith,
    v.parallel,
    v.few,
    v.free_unused (back s.free_entity_ids 0),
    elem-back s.free_entity_ids 0,
    length-append s.entity_versions (0 ∷ []),
    at-get_or (s.entity_versions ++ 0 ∷ []) (length s.entity_versions) 0,
    get_or-push_back s.entity_versions 0 (length s.entity_versions) 0,
    get_or_beyond s.entity_versions (length s.entity_versions) 0,
    at-get_or s.entity_versions (back s.free_entity_ids 0) 0,
  )

  pub length-with_entity :
      (length s.entity_versions ≤ length (with_entity s).entity_versions)
      × (next_id s < length (with_entity s).entity_versions)
      × (length (with_entity s).entity_versions ≤ u32_mod)
      × (length (with_entity s).entity_versions ≡ length (with_entity s).entity_existance_flags)
  unfolding with_entity next_id
  length-with_entity = ground (
    arith,
    v.parallel,
    v.few,
    v.free_unused (back s.free_entity_ids 0),
    elem-back s.free_entity_ids 0,
    length-append s.entity_versions (0 ∷ []),
    length-append s.entity_existance_flags (true ∷ []),
    length-set s.entity_existance_flags (back s.free_entity_ids 0) true,
  )

  pub free-with_entity :
      (j : ℕ)
      → elem ℕ_discrete j (with_entity s).free_entity_ids ≡ true
      → (elem ℕ_discrete j s.free_entity_ids ≡ true) × (next_id s ≢ j)
  unfolding with_entity next_id
  free-with_entity j h =
      ground (arith, v.parallel, v.free_unused j, elem-pop_back s.free_entity_ids j 0 v.free_once)

  pub with_entity-kept :
      ((with_entity s).components ≡ s.components)
      × ((with_entity s).indexes ≡ s.indexes)
      × Unique ℕ_discrete (with_entity s).free_entity_ids
  unfolding with_entity
  with_entity-kept = ground (arith, v.free_once, Unique-pop_back s.free_entity_ids v.free_once)

  pub with_entity-IsValid : IsValid T (with_entity s)
  with_entity-IsValid =
      let (same, same_indexes, once) = with_entity-kept in
      record {
        parallel = length-with_entity.3;
        few = length-with_entity.2;
        versions_fit = λ i. omega (arith, version-with_entity i, v.versions_fit i);
        free_unused = λ i h. ground (
          arith,
          free-with_entity i,
          v.free_unused i,
          exists-with_entity i,
          v.parallel,
          length-with_entity,
        );
        free_once = once;
        owned = λ k i h.
            ap (λ m. component_at T.eq m k i) same
            ∙ v.owned k i (ground (arith, exists-with_entity i));
        distinct = subst (Distinct T.eq) (sym same) v.distinct;
        fits = subst (FitsIds T) (sym same) v.fits;
        consistent =
            subst (λ m. IsConsistent T m (with_entity s).indexes) (sym same)
              (subst (IsConsistent T s.components) (sym same_indexes) v.consistent);
      }

  pub has_entity-with_entity :
      (e : Entity)
      → has_entity (with_entity s) e ≡ (
          if eq_entity (entity (next_id s) (get_or s.entity_versions (next_id s) 0)) e
          then true
          else has_entity s e)
  unfolding eq_entity
  has_entity-with_entity e = ground (
    arith,
    has_entity_by_id (with_entity s) e length-with_entity.3,
    has_entity_by_id s e v.parallel,
    exists-with_entity e.raw_id,
    version-with_entity e.raw_id,
    id_unused,
  )

  -- On a valid manager with room for one more entity, `addEntity` returns an entity that the manager
  -- did not have and now has; whether it has any other entity is as before, the components stay, the
  -- callbacks of `onEntityAdded` run once each, and the manager stays valid.
  pub add_entity_fresh :
      (s' : EntityManager K W) × (e : Entity) × (add_entity E s w
        ≡ ok (s', e, broadcast s.on_entity_added tt w))
      × IsValid T s'
      × (has_entity s e ≡ false)
      × ((e' : Entity) → has_entity s' e' ≡ (if eq_entity e e' then true else has_entity s e'))
      × (s'.components ≡ s.components)
  add_entity_fresh = (
    with_entity s,
    entity (next_id s) (get_or s.entity_versions (next_id s) 0),
    add_entity-with_entity,
    with_entity-IsValid,
    unfold has_entity exists_at in ground (arith, id_unused),
    has_entity-with_entity,
    with_entity-kept.0,
  )
