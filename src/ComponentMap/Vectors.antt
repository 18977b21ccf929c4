-- ===== src/ComponentMap/Vectors.antt =====
-- component_map.h: reads after writes.
use raccoon_ecs.Common.{
  ℕ, none, ◌≡◌, refl, [], ◌∷◌, arith, find, from_option, Distinct, find-ensure_self, find-ensure_ne,
}
use raccoon_ecs.ComponentMap.{
  ComponentMap, get_component_vector_by_id, clean_empty_vectors,
  get_or_create_component_vector_by_id, component_at,
}

module _ {K : Type 0} (dec : Discrete K) where
  -- Creating a vector changes no read.
  pub component_at-get_or_create :
      (m : ComponentMap K) (k j : K) (i : ℕ)
      → component_at dec (get_or_create_component_vector_by_id dec m k) j i ≡ component_at dec m j i
  unfolding component_at get_or_create_component_vector_by_id
  component_at-get_or_create m k j i = elim (dec k j) [
    | yes e ↦ rw (← e, find-ensure_self) (ground arith)
    | no n ↦ rw (find-ensure_ne dec k j [] m n)
  ]

  find-clean_empty_vectors :
      (m : ComponentMap K) (k : K)
      → Distinct dec m
      → from_option [] (find dec k (clean_empty_vectors m)) ≡ from_option [] (find dec k m)
  unfolding clean_empty_vectors find
  find-clean_empty_vectors [] k d = refl
  find-clean_empty_vectors ((j, []) ∷ m) k d = ground (arith, find-clean_empty_vectors m k d.1)
  find-clean_empty_vectors ((j, p ∷ ps) ∷ m) k d = ground (arith, find-clean_empty_vectors m k d.1)

  pub vector-clean_empty_vectors :
      (m : ComponentMap K) (k : K)
      → Distinct dec m
      → get_component_vector_by_id dec (clean_empty_vectors m) k
        ≡ get_component_vector_by_id dec m k
  unfolding get_component_vector_by_id
  vector-clean_empty_vectors = find-clean_empty_vectors

  find-clean_empty_vectors-none :
      (m : ComponentMap K) (k : K) → find dec k m ≡ none → find dec k (clean_empty_vectors m) ≡ none
  unfolding clean_empty_vectors find
  find-clean_empty_vectors-none [] k h = refl
  find-clean_empty_vectors-none ((j, []) ∷ m) k h =
      ground (arith, find-clean_empty_vectors-none m k)
  find-clean_empty_vectors-none ((j, p ∷ ps) ∷ m) k h =
      ground (arith, find-clean_empty_vectors-none m k)

  pub clean_empty_vectors-Distinct :
      (m : ComponentMap K) → Distinct dec m → Distinct dec (clean_empty_vectors m)
  unfolding clean_empty_vectors
  clean_empty_vectors-Distinct [] d = tt
  clean_empty_vectors-Distinct ((j, []) ∷ m) d = clean_empty_vectors-Distinct m d.1
  clean_empty_vectors-Distinct ((j, p ∷ ps) ∷ m) d =
      (find-clean_empty_vectors-none m j d.0, clean_empty_vectors-Distinct m d.1)

  -- `cleanEmptyVectors` changes no read.
  pub component_at-clean_empty_vectors :
      (m : ComponentMap K) (k : K) (i : ℕ)
      → Distinct dec m
      → component_at dec (clean_empty_vectors m) k i ≡ component_at dec m k i
  unfolding component_at
  component_at-clean_empty_vectors m k i d = rw (find-clean_empty_vectors m k d)
