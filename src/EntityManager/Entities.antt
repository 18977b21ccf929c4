-- ===== src/EntityManager/Entities.antt =====
-- entity_manager.h: entities come and go.
use raccoon_ecs.Common.{
  ℕ, zero, suc, ◌+◌, ◌-◌, ◌%◌, Bool, true, false, ◌&&◌, ◌||◌, not, List, [], ◌∷◌, ◌++◌, length,
  get_or, set, back, pop_back, leb, ltb, ◌==◌, if◌then◌else◌,
}
use raccoon_ecs.Outcome.{nullptr, Outcome, ok, fault, out_of_range, ◌>>=◌}
use raccoon_ecs.Env.{
  Env, assert, call_deleter, inconsistent_entity_vectors, remove_non_existent_entity,
  entity_already_removed,
}
use raccoon_ecs.Entity.{Entity, entity, u32_mod}
use raccoon_ecs.Delegates.{broadcast}
use raccoon_ecs.ComponentMap.{ComponentMap}
use raccoon_ecs.Indexes.{on_entity_removed}
use raccoon_ecs.EntityManager.{EntityManager}

-- `vector[i]`, read and written: past the end the behaviour is undefined.
unfoldable pub at {ℓ} : {A : Type ℓ} → List A → ℕ → Outcome A
at [] i = fault out_of_range
at (x ∷ xs) zero = ok x
at (x ∷ xs) (suc i) = at xs i

unfoldable pub set_at {ℓ} : {A : Type ℓ} → List A → ℕ → A → Outcome (List A)
set_at xs i v = if ltb i (length xs) then ok (set xs i v) else fault out_of_range

-- The loop of `collectAllEntities`, over the ids from `i` on.
unfoldable pub collect_loop : List Bool → List ℕ → ℕ → Outcome (List Entity)
unfolding at
collect_loop [] versions i = ok []
collect_loop (true ∷ flags) versions i = do
  version ← at versions i
  rest ← collect_loop flags versions (i + 1)
  ok (entity (i % u32_mod) version ∷ rest)
collect_loop (false ∷ flags) versions i = collect_loop flags versions (i + 1)

module _ {K W : Type 0} where
  -- `entityIdx < mEntityExistanceFlags.size() && mEntityExistanceFlags[entityIdx]`
  unfoldable pub exists_at : EntityManager K W → ℕ → Bool
  exists_at s i = get_or s.entity_existance_flags i false

  -- `hasEntity`
  unfoldable pub has_entity : EntityManager K W → Entity → Bool
  has_entity s e =
      ltb e.raw_id (length s.entity_versions)
      && get_or s.entity_versions e.raw_id 0 == e.version
      && get_or s.entity_existance_flags e.raw_id false

  -- `hasAnyEntity`
  unfoldable pub has_any_entity : EntityManager K W → Bool
  has_any_entity s = not (length s.entity_versions == length s.free_entity_ids)

  -- `collectAllEntities`
  unfoldable pub collect_all_entities : EntityManager K W → Outcome (List Entity)
  unfolding collect_loop
  collect_all_entities s = collect_loop s.entity_existance_flags s.entity_versions 0

module _ {K W : Type 0} (E : Env K W) where
  -- The end of `addEntity`, after the id is chosen.
  unfoldable pub announce : EntityManager K W → ℕ → W → Outcome (EntityManager K W × Entity × W)
  unfolding at broadcast
  announce s raw w = do
    let w' = broadcast s.on_entity_added tt w
    version ← at s.entity_versions raw
    ok (s, entity raw version, w')

  -- `addEntity`
  unfoldable pub add_entity : EntityManager K W → W → Outcome (EntityManager K W × Entity × W)
  unfolding announce set_at assert
  add_entity s w =
      if length s.free_entity_ids == 0
      then (let w' =
            assert E (length s.entity_versions == length s.entity_existance_flags)
              inconsistent_entity_vectors w in
          let versions = s.entity_versions ++ 0 ∷ [] in
          announce
            (record s {
              entity_versions = versions;
              entity_existance_flags = s.entity_existance_flags ++ true ∷ [];
            })
            ((length versions - 1) % u32_mod) w')
      else do
        let free_id = back s.free_entity_ids 0
        flags ← set_at s.entity_existance_flags free_id true
        announce
            (record s {
              free_entity_ids = pop_back s.free_entity_ids;
              entity_existance_flags = flags;
            })
            (free_id % u32_mod) w

  -- The loop of `removeEntity` over the component vectors.
  unfoldable pub remove_components : ℕ → ComponentMap K → W → Outcome (ComponentMap K × W)
  unfolding call_deleter
  remove_components i [] w = ok ([], w)
  remove_components i ((k, ps) ∷ m) w =
      if ltb i (length ps) && not (get_or ps i nullptr == nullptr)
      then (do
        w' ← call_deleter E k (get_or ps i nullptr) w
        (m', w'') ← remove_components i m w'
        ok ((k, set ps i nullptr) ∷ m', w''))
      else do (m', w') ← remove_components i m w; ok ((k, ps) ∷ m', w')

  -- What `removeEntity` does to an entity that exists.
  unfoldable pub remove_existing : EntityManager K W → ℕ → ℕ → W → Outcome (EntityManager K W × W)
  unfolding remove_components broadcast on_entity_removed
  remove_existing s i version w = do
    (components, w') ← remove_components i s.components w
    let new_version = (version + 1) % u32_mod
    ok (
      record s {
        components = components;
        indexes = on_entity_removed s.indexes i;
        entity_existance_flags = set s.entity_existance_flags i false;
        entity_versions = set s.entity_versions i new_version;
        free_entity_ids =
            if new_version == 0 then s.free_entity_ids else s.free_entity_ids ++ i ∷ [];
      },
      broadcast s.on_entity_removed tt w',
    )

  -- `removeEntity`
  unfoldable pub remove_entity : EntityManager K W → Entity → W → Outcome (EntityManager K W × W)
  unfolding at remove_existing
  remove_entity s e w =
      let i = e.raw_id in
      if leb (length s.entity_existance_flags) i || not (get_or s.entity_existance_flags i false)
      then ok (s, E.report (remove_non_existent_entity i) w)
      else do
        version ← at s.entity_versions i
        if not (version == e.version)
            then ok (s, E.report (entity_already_removed i version e.version) w)
            else remove_existing s i version w
