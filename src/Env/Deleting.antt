-- ===== src/Env/Deleting.antt =====
-- component_factory.h: deletion functions that are known.
use raccoon_ecs.Common.{◌≡◌, some}
use raccoon_ecs.Outcome.{Ptr, ok}
use raccoon_ecs.Env.{Env, call_deleter}

module _ {K W : Type 0} (E : Env K W) where
  -- The factory knows how to delete components of a type.
  abbrev pub HasDeleter : K → Type 0
  HasDeleter k = (w : W) → (f : Ptr → W → W) × ((E.get_deletion_fn k w).0 ≡ some f)

  pub call_deleter-HasDeleter :
      (k : K) (p : Ptr) (w : W) → HasDeleter k → (w' : W) × (call_deleter E k p w ≡ ok w')
  unfolding call_deleter
  call_deleter-HasDeleter k p w h =
      let (f, e) = h w in (f p (E.get_deletion_fn k w).1, rw (e, call_deleter))
