-- ===== src/EntityManager/Transfer.antt =====
-- entity_manager.h: `transferEntityTo`. The two managers are told apart by the caller: `same` is
-- `this == &newManager`.
use raccoon_ecs.Common.{
  ℕ, ◌+◌, ◌%◌, Bool, false, ◌&&◌, ◌||◌, not, [], ◌∷◌, ◌++◌, length, get_or, set, leb, ltb, ◌==◌,
  if◌then◌else◌,
}
use raccoon_ecs.Outcome.{nullptr, Outcome, ok, ◌>>=◌}
use raccoon_ecs.Env.{Env, transfer_to_same_manager, transfer_of_non_existent}
use raccoon_ecs.Entity.{Entity, u32_mod}
use raccoon_ecs.TypeId.{TypeId}
use raccoon_ecs.ComponentMap.{ComponentMap}
use raccoon_ecs.Indexes.{on_entity_removed}
use raccoon_ecs.EntityManager.{EntityManager}
use raccoon_ecs.EntityManager.Entities.{add_entity, at}
use raccoon_ecs.EntityManager.Components.{add_component}

module _ {K W : Type 0} (T : TypeId K) (E : Env K W) where
  -- The loop over the component vectors: what is left here, and the other manager.
  unfoldable pub transfer_components :
      ComponentMap K → ℕ → EntityManager K W → Entity → W → ComponentMap K × EntityManager K W × W
  unfolding add_component
  transfer_components [] i target e w = ([], target, w)
  transfer_components ((k, ps) ∷ m) i target e w =
      if ltb i (length ps) && not (get_or ps i nullptr == nullptr)
      then (let (target', w') = add_component T E target e (get_or ps i nullptr) k w in
          let (m', target'', w'') = transfer_components m i target' e w' in
          ((k, set ps i nullptr) ∷ m', target'', w''))
      else (let (m', target', w') = transfer_components m i target e w in
          ((k, ps) ∷ m', target', w'))

  -- `transferEntityTo`: the manager, the new manager, and the entity there.
  unfoldable pub transfer_entity_to :
      Bool
      → EntityManager K W
      → EntityManager K W
      → Entity
      → W
      → Outcome (EntityManager K W × EntityManager K W × Entity × W)
  unfolding transfer_components add_entity at on_entity_removed
  transfer_entity_to same s target e w =
      let i = e.raw_id in
      if same
      then ok (s, target, e, E.report transfer_to_same_manager w)
      else if leb (length s.entity_existance_flags) i
          || not (get_or s.entity_existance_flags i false)
      then ok (s, target, e, E.report (transfer_of_non_existent i) w)
      else do
        (target', e', w') ← add_entity E target w
        let (components, target'', w'') = transfer_components s.components i target' e' w'
        version ← at s.entity_versions i
        let new_version = (version + 1) % u32_mod
        ok (
          record s {
            components = components;
            indexes = on_entity_removed s.indexes i;
            entity_existance_flags = set s.entity_existance_flags i false;
            entity_versions = set s.entity_versions i new_version;
            free_entity_ids =
                if new_version == 0 then s.free_entity_ids else s.free_entity_ids ++ i ∷ [];
          },
          target'',
          e',
          w'',
        )
