-- ===== src/ComponentFactory.antt =====
-- component_factory.h. A closure in one of the maps is the `Maker` that says what it captured: nothing
-- for a component without data, the pool for any other. The pools of all types share one heap, and
-- what a closure does where the behaviour is undefined is to set `corrupted`.
pub mod Sound
pub mod Making
pub mod Deleting
pub mod Creating
pub mod AddingPool
pub mod Registering
pub mod Cloning
use raccoon_ecs.Common.{
  ℕ, ◌+◌, ◌/◌, Bool, true, false, List, [], ◌∷◌, ◌++◌, Option, none, some, length, get_elem?, set,
  ltb, ◌==◌, if◌then◌else◌, find, put,
}
use raccoon_ecs.Outcome.{Ptr, nullptr, Outcome, ok, fault, ◌>>=◌}
use raccoon_ecs.Env.{Env, Error, unknown_component_type}
use raccoon_ecs.TypeId.{TypeId}
use raccoon_ecs.ComponentPool.{
  Slot, next_free_slot, component, Heap, ComponentPool, slot_at, make_pool, acquire_component,
  release_component,
}

-- `DefaultComponentChunkSize`, by the size of the component type.
unfoldable pub default_component_chunk_size : ℕ → ℕ
default_component_chunk_size size = if ltb 1 (4096 / size) then 4096 / size else 1

pub data Maker : Type 0 where
  flag : Maker
  pooled : ℕ → Maker

pub record ComponentFactory (K : Type 0) : Type 0 where
  pub component_creators : List (K × Maker)
  pub component_deleters : List (K × Maker)
  pub component_cloners : List (K × Maker)

-- `ComponentFactoryImpl()`
unfoldable pub no_makers : {K : Type 0} → ComponentFactory K
no_makers = record { component_creators = []; component_deleters = []; component_cloners = [] }

-- What the closures change: the slots, the pools, and the static components that were made so far.
pub record Memory (K V : Type 0) : Type 0 where
  pub heap : Heap V
  pub component_pools : List ComponentPool
  pub statics : List (K × Ptr)
  pub errors : List (Error K)
  pub corrupted : Bool

unfoldable pub new_memory : {K V : Type 0} → Memory K V
new_memory = record {
  heap = [];
  component_pools = [];
  statics = [];
  errors = [];
  corrupted = false;
}

module _ {K V : Type 0} where
  -- RACCOON_ECS_ERROR, with a handler that keeps the messages.
  unfoldable pub report_error : Error K → Memory K V → Memory K V
  report_error e m = record m { errors = m.errors ++ e ∷ [] }

  unfoldable pub acquire_from : ℕ → V → Memory K V → Ptr × Memory K V
  unfolding acquire_component
  acquire_from i v m = elim (get_elem? m.component_pools i) [
    | none ↦ (nullptr, record m { corrupted = true })
    | some pool ↦ elim (acquire_component pool m.heap v) [
      | fault e ↦ (nullptr, record m { corrupted = true })
      | ok r ↦ (r.2, record m { heap = r.1; component_pools = set m.component_pools i r.0 })
    ]
  ]

  unfoldable pub release_to : ℕ → Ptr → Memory K V → Memory K V
  unfolding release_component
  release_to i p m = elim (get_elem? m.component_pools i) [
    | none ↦ record m { corrupted = true }
    | some pool ↦ elim (release_component pool m.heap p) [
      | fault e ↦ record m { corrupted = true }
      | ok r ↦ record m { heap = r.1; component_pools = set m.component_pools i r.0 }
    ]
  ]

  -- The deletion closures of `registerComponent`.
  unfoldable pub delete : Maker → Ptr → Memory K V → Memory K V
  unfolding release_to
  delete flag p m = m
  delete (pooled i) p m = if p == nullptr then m else release_to i p m

-- The closures for component types with this default constructor.
module _ {K V : Type 0} (T : TypeId K) (default_component : K → V) where
  -- `static ComponentType component; return &component;`
  unfoldable pub static_component : K → Memory K V → Ptr × Memory K V
  static_component k m = elim (find T.eq k m.statics) [
    | some p ↦ (p, m)
    | none ↦
        let p = length m.heap + 1 in
        (
          p,
          record m {
            heap = m.heap ++ component (default_component k) ∷ [];
            statics = (k, p) ∷ m.statics;
          },
        )
  ]

  -- The creation closures of `registerComponent`.
  unfoldable pub create : K → Maker → Memory K V → Ptr × Memory K V
  unfolding static_component acquire_from
  create k flag m = static_component k m
  create k (pooled i) m = acquire_from i (default_component k) m

  -- `getCreationFn`
  unfoldable pub get_creation_fn :
      ComponentFactory K → K → Memory K V → Option (Memory K V → Ptr × Memory K V) × Memory K V
  unfolding create report_error
  get_creation_fn F k m = elim (find T.eq k F.component_creators) [
    | some maker ↦ (some (create k maker), m)
    | none ↦ (none, report_error (unknown_component_type k) m)
  ]

  -- `createComponent`
  unfoldable pub create_component : ComponentFactory K → K → Memory K V → Ptr × Memory K V
  unfolding create
  create_component F k m = elim (find T.eq k F.component_creators) [
    | some maker ↦ create k maker m
    | none ↦ (nullptr, m)
  ]

module _ {K V : Type 0} (T : TypeId K) where
  -- `getDeletionFn`
  unfoldable pub get_deletion_fn :
      ComponentFactory K → K → Memory K V → Option (Ptr → Memory K V → Memory K V) × Memory K V
  unfolding delete report_error
  get_deletion_fn F k m = elim (find T.eq k F.component_deleters) [
    | some maker ↦ (some (delete maker), m)
    | none ↦ (none, report_error (unknown_component_type k) m)
  ]

-- The closures for component types with this copy constructor.
module _ {V : Type 0} (copy_component : V → V) where
  -- The cloning closures of `registerComponent`.
  unfoldable pub clone : {K : Type 0} → Maker → Ptr → Memory K V → Ptr × Memory K V
  unfolding slot_at acquire_from
  clone flag p m = (p, m)
  clone (pooled i) p m = if p == nullptr then (nullptr, m) else elim (slot_at m.heap p) [
    | none ↦ (nullptr, record m { corrupted = true })
    | some slot ↦ elim slot [
      | next_free_slot q ↦ (nullptr, record m { corrupted = true })
      | component v ↦ acquire_from i (copy_component v) m
    ]
  ]

module _ {K V : Type 0} (T : TypeId K) (copy_component : V → V) where
  -- `getCloneFn`
  unfoldable pub get_clone_fn :
      ComponentFactory K
      → K
      → Memory K V
      → Option (Ptr → Memory K V → Ptr × Memory K V) × Memory K V
  unfolding clone report_error
  get_clone_fn F k m = elim (find T.eq k F.component_cloners) [
    | some maker ↦ (some (clone copy_component maker), m)
    | none ↦ (none, report_error (unknown_component_type k) m)
  ]

module _ {K V : Type 0} (T : TypeId K) (default_component : K → V) (copy_component : V → V) where
  -- The factory as what the containers talk to.
  unfoldable pub factory_env : ComponentFactory K → Env K (Memory K V)
  unfolding get_creation_fn get_deletion_fn get_clone_fn report_error
  factory_env F = record {
    report = report_error;
    get_creation_fn = get_creation_fn T default_component F;
    get_deletion_fn = get_deletion_fn T F;
    get_clone_fn = get_clone_fn T copy_component F;
  }

module _ {K : Type 0} (T : TypeId K) where
  unfoldable with_maker : K → Maker → ComponentFactory K → ComponentFactory K
  with_maker k maker F = record {
    component_creators = put T.eq k maker F.component_creators;
    component_deleters = put T.eq k maker F.component_deleters;
    component_cloners = put T.eq k maker F.component_cloners;
  }

  -- `registerComponent` of a component without data.
  unfoldable pub register_flag : K → ComponentFactory K → ComponentFactory K
  unfolding with_maker
  register_flag k F = with_maker k flag F

  -- `registerComponent` of any other.
  unfoldable pub register_component :
      {V : Type 0}
      → K
      → ℕ
      → Bool
      → Option (ℕ → ℕ)
      → ComponentFactory K
      → Memory K V
      → Outcome (ComponentFactory K × Memory K V)
  unfolding with_maker make_pool
  register_component k default_chunk_size need_preallocate grow F m = do
    (pool, heap) ← make_pool default_chunk_size need_preallocate grow m.heap
    let i = length m.component_pools
    ok (
      with_maker k (pooled i) F,
      record m { heap = heap; component_pools = m.component_pools ++ pool ∷ [] },
    )

-- The loop of `forEachComponentType`.
unfoldable pub call_types : {K W : Type 0} → (K → W → W) → List (K × Maker) → W → W
call_types f [] w = w
call_types f ((k, maker) ∷ rest) w = call_types f rest (f k w)

-- `forEachComponentType`, for a function on the surroundings.
unfoldable pub for_each_component_type : {K W : Type 0} → ComponentFactory K → (K → W → W) → W → W
unfolding call_types
for_each_component_type F f w = call_types f F.component_creators w
