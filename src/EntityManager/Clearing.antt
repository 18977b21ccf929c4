-- ===== src/EntityManager/Clearing.antt =====
-- entity_manager.h: `clear` and `clearCaches`.
use raccoon_ecs.Common.{
  ℕ, zero, suc, ◌≤◌, ◌≡◌, refl, false, List, [], ◌∷◌, arith, length, get_or, find, map_option,
  Distinct, ap, ◌∙◌, elem,
}
use raccoon_ecs.Outcome.{Ptr, nullptr, ok}
use raccoon_ecs.Env.{Env}
use raccoon_ecs.Entity.{Entity}
use raccoon_ecs.TypeId.{TypeId}
use raccoon_ecs.ComponentMap.{
  ComponentMap, clean_empty_vectors, component_at, get_component_vector_by_id,
}
use raccoon_ecs.ComponentMap.Vectors.{
  component_at-clean_empty_vectors, clean_empty_vectors-Distinct, vector-clean_empty_vectors,
}
use raccoon_ecs.Indexes
use raccoon_ecs.Indexes.{no_indexes}
use raccoon_ecs.Indexes.Registry.{no_indexes-IsConsistent}
use raccoon_ecs.Indexes.Events.{IsConsistent-same}
use raccoon_ecs.EntityManager.{EntityManager}
use raccoon_ecs.EntityManager.Entities.{has_entity, exists_at}
use raccoon_ecs.EntityManager.Leaving.{KnowsTypes}
use raccoon_ecs.EntityManager.Storage.{
  trim, trim_all, empty_all, delete_each, delete_all, clear, clear_caches,
}
use raccoon_ecs.EntityManager.Invariant.{IsValid}

clean_empty_vectors-empty_all :
    {K : Type 0} (m : ComponentMap K) → clean_empty_vectors (empty_all m) ≡ []
unfolding clean_empty_vectors empty_all
clean_empty_vectors-empty_all [] = refl
clean_empty_vectors-empty_all ((k, ps) ∷ m) = clean_empty_vectors-empty_all m

get_or-trim : (ps : List Ptr) (i : ℕ) → get_or (trim ps) i nullptr ≡ get_or ps i nullptr
unfolding trim
get_or-trim [] i = refl
get_or-trim (p ∷ ps) zero = ground arith
get_or-trim (p ∷ ps) (suc i) = ground (arith, get_or-trim ps i)

length-trim : (ps : List Ptr) → length (trim ps) ≤ length ps
unfolding trim
length-trim [] = omega arith
length-trim (p ∷ ps) = ground (arith, length-trim ps)

module _ {K : Type 0} (dec : Discrete K) where
  find-trim_all :
      (m : ComponentMap K) (k : K) → find dec k (trim_all m) ≡ map_option trim (find dec k m)
  unfolding find trim_all
  find-trim_all [] k = refl
  find-trim_all ((j, ps) ∷ m) k = ground (arith, find-trim_all m k)

  trim_all-Distinct : (m : ComponentMap K) → Distinct dec m → Distinct dec (trim_all m)
  unfolding trim_all
  trim_all-Distinct [] d = tt
  trim_all-Distinct ((k, ps) ∷ m) d =
      (ground (arith, find-trim_all m k, d), trim_all-Distinct m d.1)

  vector-trim_all :
      (m : ComponentMap K) (k : K)
      → get_component_vector_by_id dec (trim_all m) k ≡ trim (get_component_vector_by_id dec m k)
  unfolding get_component_vector_by_id trim
  vector-trim_all m k = ground (arith, find-trim_all m k)

module _ {K W : Type 0} (E : Env K W) where
  delete_all-KnowsTypes :
      (m : ComponentMap K) (w : W) → KnowsTypes E m → (w' : W) × (delete_all E m w ≡ ok w')
  unfolding delete_all
  delete_all-KnowsTypes [] w known = (w, refl)
  delete_all-KnowsTypes ((k, ps) ∷ m) w known =
      let (f, e) = known.0 w in
      let (w', rest) =
        delete_all-KnowsTypes m (delete_each f ps (E.get_deletion_fn k w).1) known.1 in
      (w', rw (e, delete_all) rest)

module _ {K W : Type 0} (T : TypeId K) (E : Env K W) (s : EntityManager K W) where
  -- The manager with nothing left but the removals of entities that are scheduled.
  abbrev pub cleared : EntityManager K W
  cleared = record s {
    components = [];
    indexes = no_indexes;
    entity_existance_flags = [];
    entity_versions = [];
    free_entity_ids = [];
    scheduled_component_additions = [];
    scheduled_component_removals = [];
  }

  pub clear-deleted :
      (w w' : W) → delete_all E s.components w ≡ ok w' → clear E s w ≡ ok (cleared, w')
  unfolding clear no_indexes Indexes.clear
  clear-deleted w w' deleted = rw (deleted, clean_empty_vectors-empty_all) refl

  pub clear-cleared :
      (w : W) → KnowsTypes E s.components → (w' : W) × (clear E s w ≡ ok (cleared, w'))
  clear-cleared w known =
      let (w', deleted) = delete_all-KnowsTypes E s.components w known in
      (w', clear-deleted w w' deleted)

  pub cleared-IsValid : IsValid T cleared
  unfolding no_indexes
  cleared-IsValid = record {
    parallel = refl;
    few = omega arith;
    versions_fit = λ i. omega arith;
    free_unused = unfold elem in λ i h. absurd (ground arith);
    free_once = tt;
    owned = unfold component_at get_component_vector_by_id find in λ k i h. refl;
    distinct = tt;
    fits = unfold get_component_vector_by_id find in λ k. omega arith;
    consistent = no_indexes-IsConsistent T [];
  }

  -- If the factory knows all the types of the manager, `clear` returns and leaves a valid manager
  -- without entities or components; but the entities that are scheduled to be removed stay scheduled.
  pub clear_lem :
      (w : W)
      → KnowsTypes E s.components
      → (s' : EntityManager K W) × (w' : W) × (clear E s w ≡ ok (s', w'))
        × IsValid T s'
        × ((e : Entity) → has_entity s' e ≡ false)
        × (s'.components ≡ [])
        × (s'.scheduled_entity_removals ≡ s.scheduled_entity_removals)
  clear_lem w known =
      let (w', done) = clear-cleared w known in
      (cleared, w', done, cleared-IsValid, unfold has_entity in λ e. ground arith, refl, refl)

  clear_caches_reads :
      Distinct T.eq s.components
      → (k : K) (i : ℕ)
      → component_at T.eq (clear_caches s).components k i ≡ component_at T.eq s.components k i
  unfolding clear_caches
  clear_caches_reads d k i =
      component_at-clean_empty_vectors T.eq (trim_all s.components) k i
        (trim_all-Distinct T.eq s.components d)
      ∙ unfold component_at in
        ap (λ v. get_or v i nullptr) (vector-trim_all T.eq s.components k)
        ∙ get_or-trim (get_component_vector_by_id T.eq s.components k) i

  -- On a valid manager `clearCaches` keeps every component and leaves a valid manager with the same
  -- entities.
  pub clear_caches_lem :
      IsValid T s
      → IsValid T (clear_caches s)
        × ((k : K) (i : ℕ)
            → component_at T.eq (clear_caches s).components k i
              ≡ component_at T.eq s.components k i)
        × ((e : Entity) → has_entity (clear_caches s) e ≡ has_entity s e)
  clear_caches_lem v =
      let missing : (i : ℕ) → exists_at (clear_caches s) i ≡ false → exists_at s i ≡ false =
        unfold exists_at clear_caches in λ i h. h in
      (
        record {
          parallel = unfold clear_caches in v.parallel;
          few = unfold clear_caches in v.few;
          versions_fit = unfold clear_caches in v.versions_fit;
          free_unused = unfold clear_caches exists_at in v.free_unused;
          free_once = unfold clear_caches in v.free_once;
          owned = λ k i h. clear_caches_reads v.distinct k i ∙ v.owned k i (missing i h);
          distinct =
              unfold clear_caches in
              clean_empty_vectors-Distinct T.eq (trim_all s.components)
                (trim_all-Distinct T.eq s.components v.distinct);
          fits = λ k.
              unfold clear_caches in
              omega (
                arith,
                v.fits k,
                length-trim (get_component_vector_by_id T.eq s.components k),
                ap length (
                    vector-clean_empty_vectors T.eq (trim_all s.components) k
                      (trim_all-Distinct T.eq s.components v.distinct)
                    ∙ vector-trim_all T.eq s.components k),
              );
          consistent =
              IsConsistent-same T s.components (clear_caches s).components (clear_caches s).indexes
                (unfold clear_caches in v.consistent) (clear_caches_reads v.distinct);
        },
        clear_caches_reads v.distinct,
        λ e. unfold has_entity clear_caches in refl,
      )
