-- ===== src/Env.antt =====
-- What a container talks to: the error handler of error_handling.h and the component factory of
-- component_factory.h, as an interface over a state `W` of all that lies outside the container (the
-- factory's pools, the error log, whatever the callbacks change).
pub mod Deleting
pub mod Cloning
use raccoon_ecs.Common.{ℕ, Bool, true, false, Option, none, some, if◌then◌else◌}
use raccoon_ecs.Outcome.{Ptr, Outcome, ok, fault, bad_function_call}

-- The messages of RACCOON_ECS_ERROR and RACCOON_ECS_ASSERT, by place, with what they print.
pub data Error (K : Type 0) : Type 0 where
  unknown_component_type : K → Error K
  inconsistent_entity_vectors : Error K
  remove_non_existent_entity : ℕ → Error K
  entity_already_removed : ℕ → ℕ → ℕ → Error K
  check_component_of_non_existent : K → ℕ → Error K
  add_component_to_non_existent : K → ℕ → Error K
  remove_component_from_non_existent : K → ℕ → Error K
  component_already_added : ℕ → K → Error K
  transfer_to_same_manager : Error K
  transfer_of_non_existent : ℕ → Error K
  holder_component_already_added : K → Error K

pub record Env (K W : Type 0) : Type 0 where
  -- `gErrorHandler(message)`; it does nothing where the debug checks are off.
  pub report : Error K → W → W
  -- `getCreationFn`, `getDeletionFn` and `getCloneFn`: an empty function, `none`, for an unknown type.
  pub get_creation_fn : K → W → Option (W → Ptr × W) × W
  pub get_deletion_fn : K → W → Option (Ptr → W → W) × W
  pub get_clone_fn : K → W → Option (Ptr → W → Ptr × W) × W

module _ {K W : Type 0} (E : Env K W) where
  -- RACCOON_ECS_ASSERT
  unfoldable pub assert : Bool → Error K → W → W
  assert true err w = w
  assert false err w = E.report err w

  -- The call of a creation function; an empty `std::function` throws.
  unfoldable pub call_creator : K → W → Outcome (Ptr × W)
  call_creator k w =
      let (fn, w') = E.get_creation_fn k w in
      elim fn [ none ↦ fault bad_function_call | some create ↦ ok (create w') ]

  unfoldable pub call_deleter : K → Ptr → W → Outcome W
  call_deleter k p w =
      let (fn, w') = E.get_deletion_fn k w in
      elim fn [ none ↦ fault bad_function_call | some delete ↦ ok (delete p w') ]
