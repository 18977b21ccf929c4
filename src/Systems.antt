-- ===== src/Systems.antt =====
-- utils/system.h and utils/systems_manager.h: a system is its three methods on the surroundings.
use raccoon_ecs.Common.{List, [], ◌∷◌, ◌++◌, ◌≡◌, refl}

pub record System (W : Type 0) : Type 0 where
  pub update : W → W
  pub init : W → W
  pub shutdown : W → W

pub record SystemsManager (W : Type 0) : Type 0 where
  pub systems : List (System W)

module _ {W : Type 0} where
  -- `SystemsManager()`
  unfoldable pub no_systems : SystemsManager W
  no_systems = record { systems = [] }

  -- `registerSystem`
  unfoldable pub register_system : SystemsManager W → System W → SystemsManager W
  register_system m s = record m { systems = m.systems ++ s ∷ [] }

  unfoldable pub update_each : List (System W) → W → W
  update_each [] w = w
  update_each (s ∷ ss) w = update_each ss (s.update w)

  -- `update`
  unfoldable pub update : SystemsManager W → W → W
  unfolding update_each
  update m w = update_each m.systems w

  unfoldable pub init_each : List (System W) → W → W
  init_each [] w = w
  init_each (s ∷ ss) w = init_each ss (s.init w)

  -- `initResources`
  unfoldable pub init_resources : SystemsManager W → W → W
  unfolding init_each
  init_resources m w = init_each m.systems w

  unfoldable pub shutdown_each : List (System W) → W → W
  shutdown_each [] w = w
  shutdown_each (s ∷ ss) w = shutdown_each ss (s.shutdown w)

  -- `shutdown`
  unfoldable pub shutdown : SystemsManager W → W → SystemsManager W × W
  unfolding shutdown_each
  shutdown m w = (record m { systems = [] }, shutdown_each m.systems w)

  update_each-append :
      (xs ys : List (System W)) (w : W)
      → update_each (xs ++ ys) w ≡ update_each ys (update_each xs w)
  unfolding update_each
  update_each-append [] ys w = refl
  update_each-append (x ∷ xs) ys w = update_each-append xs ys (x.update w)

  init_each-append :
      (xs ys : List (System W)) (w : W) → init_each (xs ++ ys) w ≡ init_each ys (init_each xs w)
  unfolding init_each
  init_each-append [] ys w = refl
  init_each-append (x ∷ xs) ys w = init_each-append xs ys (x.init w)

  shutdown_each-append :
      (xs ys : List (System W)) (w : W)
      → shutdown_each (xs ++ ys) w ≡ shutdown_each ys (shutdown_each xs w)
  unfolding shutdown_each
  shutdown_each-append [] ys w = refl
  shutdown_each-append (x ∷ xs) ys w = shutdown_each-append xs ys (x.shutdown w)

  -- A system that is registered runs after all the earlier ones in `update`, `initResources` and
  -- `shutdown`; after `shutdown` no system is left, and `update` does nothing.
  pub registration_order :
      (m : SystemsManager W) (s : System W) (w : W)
      → (update (register_system m s) w ≡ s.update (update m w))
        × (init_resources (register_system m s) w ≡ s.init (init_resources m w))
        × ((shutdown (register_system m s) w).1 ≡ s.shutdown (shutdown m w).1)
        × (update (shutdown m w).0 w ≡ w)
  unfolding update init_resources shutdown register_system
  registration_order m s w = (
    update_each-append m.systems (s ∷ []) w,
    init_each-append m.systems (s ∷ []) w,
    shutdown_each-append m.systems (s ∷ []) w,
    refl,
  )
