-- ===== src/ComponentFactory/Cloning.antt =====
-- component_factory.h: the cloning functions.
use raccoon_ecs.Common.{ℕ, ◌≡◌, ◌≢◌, refl, some, arith, ap, ◌∙◌, find}
use raccoon_ecs.Outcome.{Ptr, nullptr}
use raccoon_ecs.TypeId.{TypeId}
use raccoon_ecs.ComponentPool.{component, slot_at}
use raccoon_ecs.EntityManager.Cloners.{HasCloner}
use raccoon_ecs.ComponentFactory.{
  factory_env, Maker, flag, pooled, ComponentFactory, Memory, clone, get_clone_fn,
}
use raccoon_ecs.ComponentFactory.Sound.{HasSpace, IsSound, used_real}
use raccoon_ecs.ComponentFactory.Making.{Created, acquire_from-Created}
use raccoon_ecs.ComponentFactory.Creating.{Fits}

module _ {K V : Type 0} (T : TypeId K) (copy_component : V → V) (m : Memory K V) where
  -- Null is cloned to null.
  pub clone_null : (maker : Maker) → clone copy_component maker nullptr m ≡ (nullptr, m)
  unfolding clone
  clone_null flag = refl
  clone_null (pooled i) = ground arith

  -- On sound memory the cloning function of a registered type with a pool that has a slot to give, for
  -- a pointer to a component, returns a pointer to another slot, that had no component and has now
  -- what the copy constructor makes; the original and all other components stay in their slots.
  pub clone_lem :
      (F : ComponentFactory K) (s : IsSound T m) (k : K) (i : ℕ) (p : Ptr) (v : V)
      → Fits T F m
      → find T.eq k F.component_creators ≡ some (pooled i)
      → HasSpace m i
      → slot_at m.heap p ≡ some (component v)
      → ((get_clone_fn T copy_component F k m) ≡ (some (clone copy_component (pooled i)), m))
        × ((q : Ptr) × (m' : Memory K V) × (clone copy_component (pooled i) p m ≡ (q, m'))
            × Created T m i (copy_component v) q m'
            × (q ≢ p))
  clone_lem F s k i p v fits known space used =
      let (q, m', done, c) = acquire_from-Created T m s i (copy_component v) space in
      let same : find T.eq k F.component_cloners ≡ some (pooled i) =
        ap (find T.eq k) fits.same_cloners ∙ known in
      (
        unfold get_clone_fn in ground (arith, same),
        (
          q,
          m',
          unfold clone in ground (arith, used_real m p (v, used), used, done),
          c,
          λ e. c.unused v (ap (slot_at m.heap) e ∙ used),
        ),
      )

-- Over a factory that has a cloning function for each type, null is cloned to null.
pub factory-HasCloner :
    {K V : Type 0} (T : TypeId K) (default_component : K → V) (copy_component : V → V)
    (F : ComponentFactory K) (k : K) (maker : Maker)
    → find T.eq k F.component_cloners ≡ some maker
    → HasCloner (factory_env T default_component copy_component F) k
unfolding factory_env get_clone_fn
factory-HasCloner T default_component copy_component F k maker known m = (
  clone copy_component maker,
  ground (arith, known),
  λ u. ap (λ r. r.0) (clone_null T copy_component u maker),
)
