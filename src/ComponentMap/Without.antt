-- ===== src/ComponentMap/Without.antt =====
-- component_map.h: a component map that loses all the components of a raw id.
use raccoon_ecs.Common.{
  ℕ, zero, suc, ◌≡◌, refl, List, [], ◌∷◌, length, get_or, Distinct, find, arith, set, ◌==◌,
  if◌then◌else◌, length-set, get_or-set_default, ap, sym, map_option, from_option,
}
use raccoon_ecs.Outcome.{Ptr, nullptr}
use raccoon_ecs.ComponentMap.{ComponentMap, component_at, get_component_vector_by_id}

-- The component map with nothing left of a raw id.
unfoldable pub without_id : {K : Type 0} → ℕ → ComponentMap K → ComponentMap K
without_id i [] = []
without_id i ((k, ps) ∷ m) = (k, set ps i nullptr) ∷ without_id i m

pub set_same : (ps : List Ptr) (i : ℕ) → get_or ps i nullptr ≡ nullptr → set ps i nullptr ≡ ps
set_same [] i h = refl
set_same (p ∷ ps) zero h = ap (λ q. q ∷ ps) (sym h)
set_same (p ∷ ps) (suc i) h = ap (◌∷◌ p) (set_same ps i h)

module _ {K : Type 0} (dec : Discrete K) where
  find-without_id :
      (i : ℕ) (m : ComponentMap K) (k : K)
      → find dec k (without_id i m) ≡ map_option (λ ps. set ps i nullptr) (find dec k m)
  unfolding find without_id
  find-without_id i [] k = refl
  find-without_id i ((j, ps) ∷ m) k = ground (arith, find-without_id i m k)

  pub component_at-without_id :
      (i : ℕ) (m : ComponentMap K) (k : K) (j : ℕ)
      → component_at dec (without_id i m) k j ≡ (if i == j then nullptr else component_at dec m k j)
  unfolding component_at get_component_vector_by_id
  component_at-without_id i m k j =
      ground (
        arith,
        find-without_id i m k,
        get_or-set_default (from_option [] (find dec k m)) i j nullptr,
      )

  pub Distinct-without_id :
      (i : ℕ) (m : ComponentMap K) → Distinct dec m → Distinct dec (without_id i m)
  unfolding without_id
  Distinct-without_id i [] d = tt
  Distinct-without_id i ((k, ps) ∷ m) d =
      (ground (arith, find-without_id i m k), Distinct-without_id i m d.1)

  pub length_vector-without_id :
      (i : ℕ) (m : ComponentMap K) (k : K)
      → length (get_component_vector_by_id dec (without_id i m) k)
        ≡ length (get_component_vector_by_id dec m k)
  unfolding get_component_vector_by_id
  length_vector-without_id i m k =
      ground (arith, find-without_id i m k, length-set (from_option [] (find dec k m)) i nullptr)
