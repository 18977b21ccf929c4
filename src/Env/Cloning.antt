-- ===== src/Env/Cloning.antt =====
-- component_factory.h: cloning functions that are known.
use raccoon_ecs.Common.{◌≡◌, some}
use raccoon_ecs.Outcome.{Ptr}
use raccoon_ecs.Env.{Env}

module _ {K W : Type 0} (E : Env K W) where
  -- The factory knows how to clone components of a type.
  abbrev pub CanClone : K → Type 0
  CanClone k = (w : W) → (f : Ptr → W → Ptr × W) × ((E.get_clone_fn k w).0 ≡ some f)

  -- Some cloning function for the type has made the one pointer from the other.
  abbrev pub IsClone : K → Ptr → Ptr → Type 0
  IsClone k p q =
      (f : Ptr → W → Ptr × W) × (w : W) × (u : W) × ((E.get_clone_fn k w).0 ≡ some f)
      × ((f p u).0 ≡ q)
