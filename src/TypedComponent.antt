-- ===== src/TypedComponent.antt =====
-- typed_component.h: a component pointer with its type.
use raccoon_ecs.Outcome.{Ptr}

pub record TypedComponent (K : Type 0) : Type 0 where
  pub type_id : K
  pub component : Ptr
