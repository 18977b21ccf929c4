-- ===== src/CombinedView/Listing.antt =====
-- utils/combined_entity_manager_view.h: `getAllEntityComponents` of several managers.
use raccoon_ecs.Common.{
  ◌≡◌, ◌≢◌, refl, false, List, [], ◌∷◌, some, length, arith, get_elem?, ◌==◌, ◌⊎◌, inl, inr, find,
  get_elem?_inside, ap,
}
use raccoon_ecs.Outcome.{nullptr, ok}
use raccoon_ecs.Entity.{Entity}
use raccoon_ecs.TypeId.{TypeId}
use raccoon_ecs.TypedComponent.{TypedComponent}
use raccoon_ecs.ComponentMap.{component_at}
use raccoon_ecs.EntityManager.{EntityManager}
use raccoon_ecs.EntityManager.Listing.{Lists, get_all_entity_components_lem}
use raccoon_ecs.EntityManager.Adding.{at-get_elem?}
use raccoon_ecs.EntityView.{Managers}
use raccoon_ecs.CombinedView.{CombinedView, get_all_entity_components}
use raccoon_ecs.CombinedView.Loop.{AllValid, InRange}

empty-or-not : {A : Type 0} (xs : List A) → (xs ≡ []) ⊎ (((length xs == 0) ≡ false) × (xs ≢ []))
empty-or-not [] = inl refl
empty-or-not (x ∷ xs) = inr (ground arith, λ e. let n = ap length e in omega (arith, n))

module _ {K W : Type 0} (T : TypeId K) (e : Entity) where
  nothing_listed :
      (s : EntityManager K W)
      → Lists T s e.raw_id []
      → (k : K) → component_at T.eq s.components k e.raw_id ≡ nullptr
  unfolding find
  nothing_listed s lists k = ground (arith, lists.1 k)

module _ {K W D : Type 0} (T : TypeId K) (ms : Managers K W) (e : Entity) where
  -- What the first manager lists that has any component for the id of the entity, and nothing if there
  -- is none.
  abbrev pub FirstLists : CombinedView D → List (TypedComponent K) → Type 0
  FirstLists [] cs = cs ≡ []
  FirstLists (r ∷ rs) cs =
      (s : EntityManager K W) × (get_elem? ms r.entity_manager ≡ some s)
      × (((cs ≢ []) × Lists T s e.raw_id cs)
          ⊎ (((k : K) → component_at T.eq s.components k e.raw_id ≡ nullptr) × FirstLists rs cs))

  -- On valid managers, all references of the view leading to one of them, `getAllEntityComponents` with
  -- an empty vector returns; the vector then has one entry for each component that the first manager of
  -- the view holds for the id of the entity which holds any, and is empty if there is no such manager.
  pub combined_listing :
      (view : CombinedView D)
      → AllValid T ms
      → InRange view ms
      → (cs : List (TypedComponent K)) × (get_all_entity_components view ms e [] ≡ ok cs)
        × FirstLists view cs
  unfolding get_all_entity_components
  combined_listing [] all inside = ([], refl, refl)
  combined_listing (r ∷ rs) all (lt, inside) =
      let (s, at_s) = get_elem?_inside ms r.entity_manager lt in
      let (cs, listed, lists) =
        get_all_entity_components_lem T s e [] (all r.entity_manager s at_s) in
      elim (empty-or-not cs) [
        | inl empty ↦
            let (cs', done, first) = combined_listing rs all inside in
            (
              cs',
              rw (at-get_elem? ms r.entity_manager s at_s, listed, empty) done,
              (s, at_s, inr (nothing_listed T e s (rw empty at lists), first)),
            )
        | inr some_listed ↦ (
          cs,
          rw (at-get_elem? ms r.entity_manager s at_s, listed, some_listed.0) refl,
          (s, at_s, inl (some_listed.1, lists)),
        )
      ]
