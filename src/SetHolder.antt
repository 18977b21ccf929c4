-- ===== src/SetHolder.antt =====
-- component_set_holder.h: components of an object that is no entity. `std::unordered_map` is an
-- association list; the factory and the error handler are an `Env`.
pub mod Laws
pub mod Copying
use raccoon_ecs.Common.{
  ℕ, Bool, true, false, not, List, [], ◌∷◌, ◌++◌, map, none, some, Option, ◌==◌, if◌then◌else◌,
  find, modify, ensure, erase, from_option, is_some, length,
}
use raccoon_ecs.Outcome.{Ptr, nullptr, Outcome, ok, fault, bad_function_call, ◌>>=◌}
use raccoon_ecs.Env.{Env, call_creator, call_deleter, holder_component_already_added}
use raccoon_ecs.TypeId.{TypeId}
use raccoon_ecs.TypedComponent.{TypedComponent}

-- `mComponents`
abbrev pub SetHolder : Type 0 → Type 0
SetHolder K = List (K × Ptr)

-- `getAllComponents`
unfoldable pub get_all_components : {K : Type 0} → SetHolder K → List (TypedComponent K)
get_all_components h = map (λ entry. record { type_id = entry.0; component = entry.1 }) h

-- `hasAnyComponents`
unfoldable pub has_any_components : {K : Type 0} → SetHolder K → Bool
has_any_components h = not (length h == 0)

module _ {K : Type 0} (T : TypeId K) where
  -- `doesComponentExists<ComponentType>`: `operator[]` makes an entry with `nullptr` if there is none.
  unfoldable pub does_component_exists : SetHolder K → K → SetHolder K × Bool
  does_component_exists h k =
      let h' = ensure T.eq k nullptr h in
      (h', not (from_option nullptr (find T.eq k h') == nullptr))

  -- `addComponentUnsafe`: `operator[]` and a write.
  unfoldable pub add_component_unsafe : SetHolder K → Ptr → K → SetHolder K
  add_component_unsafe h component k = modify T.eq k (λ _. component) (ensure T.eq k nullptr h)

  -- `getSingleComponent`
  unfoldable pub get_single_component : SetHolder K → K → Ptr
  get_single_component h k = from_option nullptr (find T.eq k h)

  -- `getComponents<Components...>`
  unfoldable pub get_components : SetHolder K → List K → List Ptr
  unfolding get_single_component
  get_components h pack = map (get_single_component h) pack

module _ {K W : Type 0} (T : TypeId K) (E : Env K W) where
  -- `addComponent(component, typeId)`
  unfoldable pub add_component : SetHolder K → Ptr → K → W → SetHolder K × W
  unfolding add_component_unsafe
  add_component h component k w =
      if component == nullptr
      then (h, w)
      else if not (is_some (find T.eq k h))
      then (add_component_unsafe T h component k, w)
      else (h, E.report (holder_component_already_added k) w)

  -- `addComponentByType`, and `addComponent<ComponentType>`
  unfoldable pub add_component_by_type : SetHolder K → K → W → Outcome (SetHolder K × Ptr × W)
  unfolding add_component call_creator
  add_component_by_type h k w = do
    (component, w') ← call_creator E k w
    let (h', w'') = add_component h component k w'
    ok (h', component, w'')

  -- `addComponentByTypeUnsafe`
  unfoldable pub add_component_by_type_unsafe :
      SetHolder K → K → W → Outcome (SetHolder K × Ptr × W)
  unfolding add_component_unsafe call_creator
  add_component_by_type_unsafe h k w = do
    (component, w') ← call_creator E k w
    ok (add_component_unsafe T h component k, component, w')

  -- `getOrAddComponent`
  unfoldable pub get_or_add_component : SetHolder K → K → W → Outcome (SetHolder K × Ptr × W)
  unfolding add_component_by_type_unsafe
  get_or_add_component h k w = elim (find T.eq k h) [
    | none ↦ add_component_by_type_unsafe h k w
    | some p ↦ ok (h, p, w)
  ]

  -- `removeComponent`
  unfoldable pub remove_component : SetHolder K → K → W → Outcome (SetHolder K × W)
  unfolding call_deleter
  remove_component h k w = elim (find T.eq k h) [
    | none ↦ ok (h, w)
    | some p ↦ do w' ← call_deleter E k p w; ok (erase T.eq k h, w')
  ]

  -- The loop of `removeAllComponents`.
  unfoldable pub delete_components : SetHolder K → W → Outcome W
  unfolding call_deleter
  delete_components [] w = ok w
  delete_components ((k, p) ∷ h) w = do w' ← call_deleter E k p w; delete_components h w'

  -- `removeAllComponents`
  unfoldable pub remove_all_components : SetHolder K → W → Outcome (SetHolder K × W)
  unfolding delete_components
  remove_all_components h w = do w' ← delete_components h w; ok ([], w')

  -- The loop of `copyComponentsFrom`; `emplace` keeps an old entry.
  unfoldable pub copy_components_from : SetHolder K → SetHolder K → W → Outcome (SetHolder K × W)
  copy_components_from h [] w = ok (h, w)
  copy_components_from h ((k, p) ∷ original) w =
      let (fn, w') = E.get_clone_fn k w in
      elim fn [
        | none ↦ fault bad_function_call
        | some clone ↦
            let (q, w'') = clone p w' in copy_components_from (ensure T.eq k q h) original w''
      ]

  -- `overrideBy` with another holder as the original.
  unfoldable pub override_by : SetHolder K → SetHolder K → W → Outcome (SetHolder K × W)
  unfolding remove_all_components copy_components_from
  override_by h original w = do
    (h', w') ← remove_all_components h w
    copy_components_from h' original w'
