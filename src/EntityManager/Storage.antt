-- ===== src/EntityManager/Storage.antt =====
-- entity_manager.h: `clear`, `clearCaches`, `copyEntitiesFrom` and `overrideBy`.
use raccoon_ecs.Common.{Bool, List, [], ◌∷◌, none, some, length, ◌==◌, if◌then◌else◌, modify}
use raccoon_ecs.Outcome.{Ptr, nullptr, Outcome, ok, fault, bad_function_call, ◌>>=◌}
use raccoon_ecs.Env.{Env}
use raccoon_ecs.TypeId.{TypeId}
use raccoon_ecs.ComponentMap.{
  ComponentMap, clean_empty_vectors, get_or_create_component_vector_by_id,
}
use raccoon_ecs.Indexes
use raccoon_ecs.EntityManager.{EntityManager, new_manager}

-- The vector up to its last component: `find_if` from the end, and `erase` behind it.
unfoldable pub trim : List Ptr → List Ptr
trim [] = []
trim (p ∷ ps) = elim (trim ps) [ [] ↦ if p == nullptr then [] else p ∷ [] | q ∷ qs ↦ p ∷ q ∷ qs ]

unfoldable pub trim_all : {K : Type 0} → ComponentMap K → ComponentMap K
unfolding trim
trim_all [] = []
trim_all ((k, ps) ∷ m) = (k, trim ps) ∷ trim_all m

-- `for (auto component : componentVector.second) deleterFn(component)`: nulls are passed too.
unfoldable pub delete_each : {W : Type 0} → (Ptr → W → W) → List Ptr → W → W
delete_each f [] w = w
delete_each f (p ∷ ps) w = delete_each f ps (f p w)

-- `newComponents[i] = cloneFn(originalComponents[i])` for each component of a vector.
unfoldable pub clone_each : {W : Type 0} → (Ptr → W → Ptr × W) → List Ptr → W → List Ptr × W
clone_each f [] w = ([], w)
clone_each f (p ∷ ps) w = let (q, w') = f p w in let (qs, w'') = clone_each f ps w' in (q ∷ qs, w'')

-- `componentVector.second.clear()` for each vector.
unfoldable pub empty_all : {K : Type 0} → ComponentMap K → ComponentMap K
empty_all [] = []
empty_all ((k, ps) ∷ m) = (k, []) ∷ empty_all m

module _ {K W : Type 0} where
  -- `clearCaches`
  unfoldable pub clear_caches : EntityManager K W → EntityManager K W
  unfolding trim_all clean_empty_vectors
  clear_caches s = record s { components = clean_empty_vectors (trim_all s.components) }

module _ {K W : Type 0} (E : Env K W) where
  -- The deletions in the loop of `clear`.
  unfoldable pub delete_all : ComponentMap K → W → Outcome W
  unfolding delete_each
  delete_all [] w = ok w
  delete_all ((k, ps) ∷ m) w =
      let (fn, w') = E.get_deletion_fn k w in
      elim fn [
        | none ↦ if length ps == 0 then delete_all m w' else fault bad_function_call
        | some f ↦ delete_all m (delete_each f ps w')
      ]

  -- `clear`. The scheduled removals of entities stay.
  unfoldable pub clear : EntityManager K W → W → Outcome (EntityManager K W × W)
  unfolding delete_all empty_all clean_empty_vectors Indexes.clear
  clear s w = do
    w' ← delete_all s.components w
    ok (
      record s {
        components = clean_empty_vectors (empty_all s.components);
        indexes = Indexes.clear s.indexes;
        entity_existance_flags = [];
        entity_versions = [];
        free_entity_ids = [];
        scheduled_component_additions = [];
        scheduled_component_removals = [];
      },
      w',
    )

module _ {K W : Type 0} (T : TypeId K) (E : Env K W) where
  -- The loop of `copyEntitiesFrom` over the vectors of the original.
  unfoldable pub clone_components :
      ComponentMap K → ComponentMap K → W → Outcome (ComponentMap K × W)
  unfolding clone_each get_or_create_component_vector_by_id
  clone_components [] m w = ok (m, w)
  clone_components ((k, ps) ∷ original) m w =
      let created = get_or_create_component_vector_by_id T.eq m k in
      let (fn, w') = E.get_clone_fn k w in
      elim fn [
        | none ↦
            if length ps == 0
            then clone_components original (modify T.eq k (λ _. []) created) w'
            else fault bad_function_call
        | some f ↦
            let (qs, w'') = clone_each f ps w' in
            clone_components original (modify T.eq k (λ _. qs) created) w''
      ]

  -- `copyEntitiesFrom`
  unfoldable pub copy_entities_from :
      EntityManager K W → EntityManager K W → W → Outcome (EntityManager K W × W)
  unfolding clone_components
  copy_entities_from s original w = do
    (components, w') ← clone_components original.components s.components w
    ok (
      record s {
        entity_existance_flags = original.entity_existance_flags;
        entity_versions = original.entity_versions;
        free_entity_ids = original.free_entity_ids;
        components = components;
      },
      w',
    )

  -- `overrideBy`: `same` says whether the original is this manager, which is empty when it is copied.
  unfoldable pub override_by :
      Bool → EntityManager K W → EntityManager K W → W → Outcome (EntityManager K W × W)
  unfolding clear copy_entities_from
  override_by same s original w = do
    (s', w') ← clear E s w
    copy_entities_from s' (if same then s' else original) w'

  -- `EntityManagerImpl(const EntityManagerImpl&)`
  unfoldable pub copy_manager : EntityManager K W → W → Outcome (EntityManager K W × W)
  unfolding copy_entities_from new_manager
  copy_manager original w = copy_entities_from new_manager original w
