-- ===== src/EntityManager/Cloners.antt =====
-- entity_manager.h: what `copyEntitiesFrom` asks of the cloning functions.
use raccoon_ecs.Common.{ℕ, zero, suc, ◌≡◌, ◌≢◌, refl, List, [], ◌∷◌, some, length, get_or, ap, ◌∙◌}
use raccoon_ecs.Outcome.{Ptr, nullptr}
use raccoon_ecs.Env.{Env}
use raccoon_ecs.Env.Cloning.{IsClone}
use raccoon_ecs.EntityManager.Storage.{clone_each}

module _ {K W : Type 0} (E : Env K W) where
  -- The factory knows how to clone components of a type, and clones null to null.
  abbrev pub HasCloner : K → Type 0
  HasCloner k =
      (w : W)
      → (f : Ptr → W → Ptr × W) × ((E.get_clone_fn k w).0 ≡ some f)
        × ((u : W) → (f nullptr u).0 ≡ nullptr)

  -- One vector holds clones where the other holds components, and nulls where it holds nulls.
  abbrev pub Clones : K → List Ptr → List Ptr → Type 0
  Clones k ps qs =
      (length qs ≡ length ps)
      × ((i : ℕ) → get_or ps i nullptr ≡ nullptr → get_or qs i nullptr ≡ nullptr)
      × ((i : ℕ)
          → get_or ps i nullptr ≢ nullptr
          → IsClone E k (get_or ps i nullptr) (get_or qs i nullptr))

  module _ (k : K) (f : Ptr → W → Ptr × W) (v : W) (known : (E.get_clone_fn k v).0 ≡ some f)
      (nulls : (u : W) → (f nullptr u).0 ≡ nullptr) where
    length-clone_each : (ps : List Ptr) (w : W) → length (clone_each f ps w).0 ≡ length ps
    unfolding clone_each
    length-clone_each [] w = refl
    length-clone_each (p ∷ ps) w = ap suc (length-clone_each ps (f p w).1)

    null-clone_each :
        (ps : List Ptr) (w : W) (i : ℕ)
        → get_or ps i nullptr ≡ nullptr
        → get_or (clone_each f ps w).0 i nullptr ≡ nullptr
    unfolding clone_each
    null-clone_each [] w i e = refl
    null-clone_each (p ∷ ps) w zero e = ap (λ q. (f q w).0) e ∙ nulls w
    null-clone_each (p ∷ ps) w (suc i) e = null-clone_each ps (f p w).1 i e

    IsClone-clone_each :
        (ps : List Ptr) (w : W) (i : ℕ)
        → get_or ps i nullptr ≢ nullptr
        → IsClone E k (get_or ps i nullptr) (get_or (clone_each f ps w).0 i nullptr)
    unfolding clone_each
    IsClone-clone_each [] w i real = absurd (real refl)
    IsClone-clone_each (p ∷ ps) w zero real = (f, v, w, known, refl)
    IsClone-clone_each (p ∷ ps) w (suc i) real = IsClone-clone_each ps (f p w).1 i real

    pub clone_each-Clones : (ps : List Ptr) (w : W) → Clones k ps (clone_each f ps w).0
    clone_each-Clones ps w = (length-clone_each ps w, null-clone_each ps w, IsClone-clone_each ps w)
