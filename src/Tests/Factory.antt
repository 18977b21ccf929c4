-- ===== src/Tests/Factory.antt =====
-- A factory with a flag and a pool, and a manager over them.
use raccoon_ecs.Common.{
  ◌++◌, some-injective, ℕ, ensure, modify, zero, suc, sym, ◌∙◌, ◌+◌, ltb, ◌≡◌, ◌≢◌, refl, true,
  false, List, [], ◌∷◌, none, some, arith, find, put, subst, ap, inr,
}
use raccoon_ecs.Outcome.{Ptr, ok, ok-injective}
use raccoon_ecs.Env.{call_creator}
use raccoon_ecs.Entity.{Entity, entity}
use raccoon_ecs.TypeId.{TypeId}
use raccoon_ecs.ComponentMap.{component_at}
use raccoon_ecs.ComponentPool.{component, next_free_slot, slot_at}
use raccoon_ecs.ComponentFactory.{
  Maker, flag, pooled, ComponentFactory, no_makers, Memory, new_memory, register_flag,
  register_component, create_component, factory_env, get_clone_fn, clone,
}
use raccoon_ecs.ComponentFactory.Sound.{IsSound, HasSpace, HasSpaceFor, new_memory-IsSound}
use raccoon_ecs.ComponentFactory.Creating.{Fits, Makes, create_component_lem}
use raccoon_ecs.ComponentFactory.Registering.{
  Registered, no_makers-Fits, register_flag-Registered, register_component_lem,
}
use raccoon_ecs.Indexes.{no_indexes}
use raccoon_ecs.Delegates.{no_functions}
use raccoon_ecs.ComponentFactory.Making.{Created}
use raccoon_ecs.ComponentFactory.Cloning.{clone_lem, factory-HasCloner}
use raccoon_ecs.EntityManager.Entities.{exists_at, has_entity}
use raccoon_ecs.EntityManager.{EntityManager, new_manager}
use raccoon_ecs.Ownership.{
  Call, new_entity, new_component, old_component, later_old_component, later_old_entity, execute,
  clear_all, run, run_all,
}
use raccoon_ecs.EntityManager.Invariant.{IsValid}
use raccoon_ecs.EntityManager.Cloners.{HasCloner}
use raccoon_ecs.EntityManager.Copying.{IsCopy, copying_lem}
use raccoon_ecs.EntityManager.Storage.{copy_manager, override_by}
use raccoon_ecs.EntityManager.Leaving.{KnowsTypes}
use raccoon_ecs.Ownership.Vectors.{KnowsAll}
use raccoon_ecs.Ownership.State.{Owns, new_manager-Owns}
use raccoon_ecs.Ownership.Freeing.{IsFree, run_all-freed}
use raccoon_ecs.Ownership.Client.{IsCareful, run_all-Owns}

-- A component type without data, and one with.
data Part : Type 0 where
  frozen body : Part

abbrev number : Part → ℕ
number frozen = 0
number body = 1

abbrev same_part : Discrete Part
same_part frozen frozen = yes refl
same_part frozen body = no (λ e. let n : 0 ≡ 1 = ap number e in omega arith)
same_part body frozen = no (λ e. let n : 1 ≡ 0 = ap number e in omega arith)
same_part body body = yes refl

number-injective : (a b : Part) → number a ≡ number b → a ≡ b
number-injective frozen frozen e = refl
number-injective frozen body e = absurd (omega arith)
number-injective body frozen e = absurd (omega arith)
number-injective body body e = refl

abbrev parts : TypeId Part
parts = record {
  eq = same_part;
  hash = number;
  less = λ a b. ltb (number a) (number b);
  less_irrefl = λ a. ground arith;
  less_trans = λ a b c. ground arith;
  less_total = λ a b e f. number-injective a b (ground arith);
}

-- The factory after the registration of both, with chunks of two slots.
abbrev factory : ComponentFactory Part
factory =
    let makers = (frozen, flag) ∷ (body, pooled 0) ∷ [] in
    record { component_creators = makers; component_deleters = makers; component_cloners = makers }

abbrev memory : Memory Part ℕ
memory = record {
  heap = next_free_slot 2 ∷ next_free_slot 0 ∷ [];
  component_pools =
      record {
        free_list = 1;
        chunks = 1 ∷ [];
        allocated_components_count = 2;
        default_chunk_size = 2;
        grow_strategy_fn = none;
      }
      ∷ [];
  statics = [];
  errors = [];
  corrupted = false;
}

abbrev flagged : ComponentFactory Part
flagged = register_flag parts frozen no_makers

registered : register_component parts body 2 true none flagged new_memory ≡ ok (factory, memory)
unfolding register_component register_flag no_makers new_memory put
registered = refl

flagged-Registered : Registered parts no_makers (new_memory {V = ℕ}) frozen flag flagged new_memory
flagged-Registered =
    register_flag-Registered {V = ℕ} parts no_makers new_memory (new_memory-IsSound parts)
      (no_makers-Fits parts new_memory) frozen

some_size : ◌≢◌ {A = ℕ} 2 0
some_size e = omega (arith, e)

register_component_lem_example :
    (F' : ComponentFactory Part) × (m' : Memory Part ℕ) × (register_component parts body 2 true none
        flagged new_memory
      ≡ ok (F', m'))
    × Registered parts flagged new_memory body (pooled 0) F' m'
    × HasSpace m' 0
unfolding new_memory
register_component_lem_example =
    register_component_lem parts flagged new_memory flagged-Registered.sound flagged-Registered.fits
      body 2 true none some_size

AreReady : ComponentFactory Part × Memory Part ℕ → Type 0
AreReady r =
    IsSound parts r.1
    × Fits parts r.0 r.1
    × ((q : Ptr) (u : ℕ) → slot_at r.1.heap q ≢ some (component u))

no_slots : (q : Ptr) (u : ℕ) → slot_at {V = ℕ} [] q ≢ some (component u)
unfolding slot_at
no_slots zero u e = ground (arith, e)
no_slots (suc i) u e = ground (arith, e)

ready : AreReady (factory, memory)
unfolding AreReady new_memory
ready =
    let (F', m', done, r, space) =
      register_component_lem parts flagged new_memory flagged-Registered.sound
        flagged-Registered.fits body 2 true none some_size in
    let same : ◌≡◌ {A = ComponentFactory Part × Memory Part ℕ} (F', m') (factory, memory) =
      ok-injective (sym done ∙ registered) in
    subst AreReady same (r.sound, r.fits, λ q u e. no_slots q u (r.none_added q u e))

knows : KnowsAll parts factory
unfolding find
knows frozen = (flag, refl)
knows body = (pooled 0, refl)

owned : Owns parts (λ k. 5) (λ v. v) factory new_manager memory
unfolding AreReady
owned = new_manager-Owns parts (λ k. 5) (λ v. v) factory memory ready.0 ready.1 ready.2

abbrev calls : List (Call Part)
calls =
    new_entity
    ∷ new_component (entity 0 0) body
    ∷ new_component (entity 0 0) frozen
    ∷ old_component (entity 0 0) body
    ∷ later_old_component (entity 0 0) frozen
    ∷ later_old_entity (entity 0 0)
    ∷ execute
    ∷ []

space_of :
    (m : Memory Part ℕ) (maker maker' : Maker)
    → some maker ≡ some maker'
    → HasSpaceFor maker m
    → HasSpaceFor maker' m
space_of m maker maker' e space = subst (λ y. HasSpaceFor y m) (some-injective e) space

careful : IsCareful parts (λ k. 5) (λ v. v) factory calls new_manager memory
unfolding run new_manager no_indexes no_functions exists_at component_at find factory_env ensure
    modify
careful = (
  inr (omega arith),
  (
    (
      refl,
      refl,
      λ maker e. space_of _ (pooled 0) maker e (_, refl, λ real. absurd (ground (arith, real))),
    ),
    ((refl, refl, λ maker e. space_of _ flag maker e tt), (tt, (tt, (tt, (tt, tt))))),
  ),
)

-- A component is made, also of the type without data, the first is removed, the second and the entity are
-- scheduled to be.
run_all-Owns_example :
    (s' : EntityManager Part (Memory Part ℕ)) × (m' : Memory Part ℕ) × (run_all parts
        (factory_env parts (λ k. 5) (λ v. v) factory)
        calls
        new_manager
        memory
      ≡ ok (s', m'))
    × Owns parts (λ k. 5) (λ v. v) factory s' m'
run_all-Owns_example =
    run_all-Owns parts (λ k. 5) (λ v. v) factory calls new_manager memory knows owned careful

run_all-freed_example :
    (s' : EntityManager Part (Memory Part ℕ)) × (m' : Memory Part ℕ) × (run_all parts
        (factory_env parts (λ k. 5) (λ v. v) factory)
        (calls ++ clear_all ∷ [])
        new_manager
        memory
      ≡ ok (s', m'))
    × ((e : Entity) → has_entity s' e ≡ false)
    × ((q : Ptr) (u : ℕ)
        → slot_at m'.heap q ≡ some (component u)
        → (k : Part) × (find same_part k m'.statics ≡ some q))
    × ((q next : Ptr) → slot_at m'.heap q ≡ some (next_free_slot next) → IsFree m' q)
run_all-freed_example =
    run_all-freed parts (λ k. 5) (λ v. v) factory calls new_manager memory knows owned careful

create_component_lem_example :
    (p : Ptr) × (m' : Memory Part ℕ) × (create_component parts (λ k. 5) factory body memory
      ≡ (p, m'))
    × (call_creator (factory_env parts (λ k. 5) (λ v. v) factory) body memory ≡ ok (p, m'))
    × Makes parts (λ k. 5) factory memory body p m'
unfolding AreReady find
create_component_lem_example =
    create_component_lem parts (λ k. 5) factory body memory ready.0 (λ v. v) (pooled 0) refl
      (_, refl, λ e. absurd (omega (arith, e)))

-- The memory after a component was made in the first slot.
abbrev with_body : Memory Part ℕ
with_body = record memory {
  heap = component 5 ∷ next_free_slot 0 ∷ [];
  component_pools =
      record {
        free_list = 2;
        chunks = 1 ∷ [];
        allocated_components_count = 2;
        default_chunk_size = 2;
        grow_strategy_fn = none;
      }
      ∷ [];
}

made : create_component parts (λ k. 5) factory body memory ≡ (1, with_body)
unfolding create_component find
made = refl

with_body-IsSound : IsSound parts with_body
with_body-IsSound =
    let (p, m', done, called, makes) = create_component_lem_example in
    let same : ◌≡◌ {A = Ptr × Memory Part ℕ} (p, m') (1, with_body) = sym done ∙ made in
    subst (λ r. IsSound parts r.1) same makes.sound

with_body-Fits : Fits parts factory with_body
unfolding AreReady
with_body-Fits =
    let f = ready.1 in
    record { same_deleters = f.same_deleters; same_cloners = f.same_cloners; in_range = f.in_range }

clone_lem_example :
    (get_clone_fn parts (λ v. v + 1) factory body with_body
      ≡ (some (clone (λ v. v + 1) (pooled 0)), with_body))
    × ((q : Ptr) × (m' : Memory Part ℕ) × (clone (λ v. v + 1) (pooled 0) 1 with_body ≡ (q, m'))
        × Created parts with_body 0 6 q m'
        × (q ≢ 1))
unfolding find slot_at
clone_lem_example =
    clone_lem parts (λ v. v + 1) with_body factory with_body-IsSound body 0 1 5 with_body-Fits refl
      (_, refl, λ e. absurd (omega (arith, e))) refl

-- An entity with the component of the first slot.
abbrev placed : EntityManager Part (Memory Part ℕ)
unfolding new_manager
placed = record new_manager {
  entity_versions = 0 ∷ [];
  entity_existance_flags = true ∷ [];
  components = (body, 1 ∷ []) ∷ [];
}

abbrev first_calls : List (Call Part)
first_calls = new_entity ∷ new_component (entity 0 0) body ∷ []

placing : IsCareful parts (λ k. 5) (λ v. v) factory first_calls new_manager memory
unfolding run new_manager no_indexes no_functions exists_at component_at find factory_env ensure
    modify
placing = (
  inr (omega arith),
  (
    (
      refl,
      refl,
      λ maker e. space_of _ (pooled 0) maker e (_, refl, λ real. absurd (ground (arith, real))),
    ),
    tt,
  ),
)

placed_by_calls :
    run_all parts (factory_env parts (λ k. 5) (λ v. v) factory) first_calls new_manager memory
    ≡ ok (placed, with_body)
unfolding run_all run new_manager no_indexes no_functions exists_at component_at find factory_env
    ensure modify
placed_by_calls = refl

placed-IsValid : IsValid parts placed
placed-IsValid =
    let (s', m', done, o) =
      run_all-Owns parts (λ k. 5) (λ v. v) factory first_calls new_manager memory knows owned
        placing in
    let same : ◌≡◌ {A = EntityManager Part (Memory Part ℕ) × Memory Part ℕ} (s', m')
        (placed, with_body) =
      ok-injective (sym done ∙ placed_by_calls) in
    subst (λ r. IsValid parts r.0) same o.valid

part_cloners : (k : Part) → HasCloner (factory_env parts (λ k'. 5) (λ v. v + 1) factory) k
unfolding find
part_cloners frozen = factory-HasCloner parts (λ k'. 5) (λ v. v + 1) factory frozen flag refl
part_cloners body = factory-HasCloner parts (λ k'. 5) (λ v. v + 1) factory body (pooled 0) refl

-- A copy of that manager, over the same factory.
copying_lem_example :
    ((w : Memory Part ℕ)
      → (s' : EntityManager Part (Memory Part ℕ)) × (w' : Memory Part ℕ) × (copy_manager parts
            (factory_env parts (λ k. 5) (λ v. v + 1) factory)
            placed
            w
          ≡ ok (s', w'))
        × IsValid parts s'
        × IsCopy parts (factory_env parts (λ k. 5) (λ v. v + 1) factory) placed s')
    × ((s : EntityManager Part (Memory Part ℕ)) (w : Memory Part ℕ)
        → KnowsTypes (factory_env parts (λ k. 5) (λ v. v + 1) factory) s.components
        → (s' : EntityManager Part (Memory Part ℕ)) × (w' : Memory Part ℕ) × (override_by parts
              (factory_env parts (λ k. 5) (λ v. v + 1) factory)
              false
              s
              placed
              w
            ≡ ok (s', w'))
          × IsValid parts s'
          × IsCopy parts (factory_env parts (λ k. 5) (λ v. v + 1) factory) placed s')
copying_lem_example =
    copying_lem parts (factory_env parts (λ k. 5) (λ v. v + 1) factory) part_cloners placed
      placed-IsValid
