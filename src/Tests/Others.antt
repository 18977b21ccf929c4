-- ===== src/Tests/Others.antt =====
-- The smaller parts, on concrete values.
use raccoon_ecs.Common.{
  none, ℕ, ◌+◌, ◌*◌, ◌≡◌, refl, true, false, not, [], ◌∷◌, some, ◌==◌, arith, ite, ℕ_discrete, find,
  is_some, Distinct,
}
use raccoon_ecs.Outcome.{Ptr, nullptr, ok}
use raccoon_ecs.Env.Cloning.{IsClone}
use raccoon_ecs.SetHolder.Copying.{holder_override}
use raccoon_ecs.Env.{holder_component_already_added}
use raccoon_ecs.ComponentMap.{ComponentMap}
use raccoon_ecs.Delegates.{MulticastDelegate, handle}
use raccoon_ecs.Systems.{
  System, SystemsManager, no_systems, register_system, update, init_resources, shutdown,
  registration_order,
}
use raccoon_ecs.SetHolder.{
  SetHolder, has_any_components, does_component_exists, get_single_component, add_component,
  override_by,
}
use raccoon_ecs.SetHolder.Laws.{holder_add_component, holder_does_component_exists}
use raccoon_ecs.Tests.Concrete.{World, world, env, known, cloners, type_ids, position, velocity}

abbrev sparse_map : ComponentMap ℕ
sparse_map = (position, []) ∷ (velocity, 5 ∷ []) ∷ []

-- Callbacks that write down a number.
abbrev double_and : ℕ → ℕ → ℕ → ℕ
double_and n a w = 2 * w + n + a

abbrev delegate : MulticastDelegate ℕ ℕ
delegate = record {
  functions =
      record { id = handle 0; fn = double_and 1 }
      ∷ record { id = handle 1; fn = double_and 2 }
      ∷ [];
  next_function_id = 2;
}

abbrev adder : ℕ → System ℕ
adder n = record { update = λ w. 2 * w + n; init = λ w. 3 * w + n; shutdown = λ w. 5 * w + n }

abbrev systems : SystemsManager ℕ
systems = register_system no_systems (adder 1)

registration_order_example :
    (update (register_system systems (adder 2)) 4 ≡ (adder 2).update (update systems 4))
    × (init_resources (register_system systems (adder 2)) 4
        ≡ (adder 2).init (init_resources systems 4))
    × ((shutdown (register_system systems (adder 2)) 4).1
        ≡ (adder 2).shutdown (shutdown systems 4).1)
    × (update (shutdown systems 4).0 4 ≡ 4)
registration_order_example = registration_order systems (adder 2) 4

abbrev holder : SetHolder ℕ
holder = (position, 101) ∷ []

holder_add_component_example :
    (h' : SetHolder ℕ) × (w' : World) × (add_component type_ids env holder 102 velocity world
      ≡ (h', w'))
    × (Distinct ℕ_discrete holder → Distinct ℕ_discrete h')
    × (is_some (find ℕ_discrete velocity holder) ≡ false
        → (w' ≡ world)
          × ((j : ℕ)
              → get_single_component type_ids h' j
                ≡ ite (ℕ_discrete velocity j) 102 (get_single_component type_ids holder j)))
    × (is_some (find ℕ_discrete velocity holder) ≡ true
        → (h' ≡ holder) × (w' ≡ env.report (holder_component_already_added velocity) world))
holder_add_component_example =
    holder_add_component type_ids env holder velocity world 102 (λ e. ground (arith, e))

holder_does_component_exists_example :
    (h' : SetHolder ℕ) × (does_component_exists type_ids holder velocity
      ≡ (h', not (get_single_component type_ids holder velocity == nullptr)))
    × ((j : ℕ) → get_single_component type_ids h' j ≡ get_single_component type_ids holder j)
    × (has_any_components h' ≡ true)
    × (add_component type_ids env h' 102 velocity world
        ≡ (h', env.report (holder_component_already_added velocity) world))
holder_does_component_exists_example =
    holder_does_component_exists type_ids env holder velocity world 102 (λ e. ground (arith, e))

-- A holder with a position takes over what another one has.
abbrev moving_holder : SetHolder ℕ
moving_holder = (velocity, 102) ∷ (position, 103) ∷ []

holder_override_example :
    (h' : SetHolder ℕ) × (w' : World) × (override_by type_ids env holder moving_holder world
      ≡ ok (h', w'))
    × Distinct ℕ_discrete h'
    × ((k : ℕ) → find ℕ_discrete k moving_holder ≡ none → find ℕ_discrete k h' ≡ none)
    × ((k : ℕ) (p : Ptr)
        → find ℕ_discrete k moving_holder ≡ some p
        → (q : Ptr) × (find ℕ_discrete k h' ≡ some q) × IsClone env k p q)
unfolding find ℕ_discrete
holder_override_example =
    holder_override type_ids env known (λ k w. ((cloners k w).0, (cloners k w).1)) holder
      moving_holder world (refl, (refl, tt))
