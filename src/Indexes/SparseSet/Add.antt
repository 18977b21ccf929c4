-- ===== src/Indexes/SparseSet/Add.antt =====
-- component_indexes.h: `Index::tryAddEntity`.
use raccoon_ecs.Common.{
  ℕ, ◌+◌, ◌≤◌, ◌<◌, ◌≡◌, refl, Bool, true, List, [], ◌∷◌, ◌++◌, none, some, arith, length, get_or,
  set, resize, ◌==◌, if◌then◌else◌, not, get_or_beyond, Bool-cases, inl, inr, length-resize,
  get_or-resize_up, leb, length-append, get_or-append_left, get_or-append_end, get_or-set, sym, ◌∙◌,
  map, all, elem,
}
use raccoon_ecs.Outcome.{Ptr, nullptr}
use raccoon_ecs.ComponentMap.{ComponentMap, get_component_vector_by_id, component_at}
use raccoon_ecs.Indexes.SparseSet.{
  Index, invalid_index, sparse_at, try_add_entity, collect_vectors, component_set, pack_idx,
}
use raccoon_ecs.Indexes.SparseSet.Invariant.{IsValid, dense_at, count, view}

module _ {K : Type 0} (dec : Discrete K) where
  -- Whether a raw id has all the component types.
  unfoldable pub has_all : ComponentMap K → List K → ℕ → Bool
  has_all m types e = all (λ k. not (component_at dec m k e == nullptr)) types

  -- The components of a raw id, in the order of the types.
  unfoldable pub components_of : ComponentMap K → List K → ℕ → List Ptr
  components_of m types e = map (λ k. component_at dec m k e) types

  -- `tryAddEntity` finds the vectors exactly if the raw id has all the components.
  pub collect_vectors-has_all :
      (m : ComponentMap K) (types : List K) (e : ℕ)
      → collect_vectors dec m types e
        ≡ (if has_all m types e then some (map (get_component_vector_by_id dec m) types) else none)
  unfolding collect_vectors has_all component_at
  collect_vectors-has_all m [] e = refl
  collect_vectors-has_all m (k ∷ ks) e = ground (
    arith,
    collect_vectors-has_all m ks e,
    get_or_beyond (get_component_vector_by_id dec m k) e nullptr,
  )

  -- The place of a type in the pack leads to the entry of that type.
  get_or-pack_idx :
      (f : K → List Ptr) (k : K) (types : List K)
      → elem dec k types ≡ true
      → get_or (map f types) (pack_idx dec k types) [] ≡ f k
  unfolding pack_idx elem
  get_or-pack_idx f k [] h = cc
  get_or-pack_idx f k (j ∷ js) h = ground (arith, get_or-pack_idx f k js)

  elems_wider :
      (j : K) (xs ks : List K)
      → all (λ k. elem dec k xs) ks ≡ true
      → all (λ k. elem dec k (j ∷ xs)) ks ≡ true
  unfolding elem
  elems_wider j xs [] h = refl
  elems_wider j xs (k ∷ ks) h = ground (arith, elems_wider j xs ks)

  elems_self : (ks : List K) → all (λ k. elem dec k ks) ks ≡ true
  unfolding elem
  elems_self [] = refl
  elems_self (k ∷ ks) = ground (arith, elems_wider k ks ks (elems_self ks))

  gather :
      (m : ComponentMap K) (types ks : List K) (e : ℕ)
      → all (λ k. elem dec k types) ks ≡ true
      → map
          (λ k.
            get_or
              (get_or (map (get_component_vector_by_id dec m) types) (pack_idx dec k types) [])
              e
              nullptr)
          ks
        ≡ components_of m ks e
  unfolding components_of component_at
  gather m types [] e h = refl
  gather m types (k ∷ ks) e h =
      ground
        (arith, gather m types ks e, get_or-pack_idx (get_component_vector_by_id dec m) k types)

  -- The tuple of `tryAddEntity` and of `populate` holds the component of each type, in order.
  pub component_set-components_of :
      (m : ComponentMap K) (types : List K) (e : ℕ)
      → component_set dec types (map (get_component_vector_by_id dec m) types) e
        ≡ components_of m types e
  unfolding component_set
  component_set-components_of m types e = gather m types types e (elems_self types)

  module _ (ix : Index K) (e : ℕ) (m : ComponentMap K) where
    -- The index with one more entry.
    added : Index K
    added = record ix {
      sparse_array =
          set
            (if leb (length ix.sparse_array) e
              then resize ix.sparse_array (e + 1) invalid_index
              else ix.sparse_array)
            e (count ix);
      cached_components = ix.cached_components ++ components_of m ix.component_types e ∷ [];
      matching_entities = ix.matching_entities ++ e ∷ [];
    }

    try_add_entity-added :
        try_add_entity dec ix e m ≡ (if has_all m ix.component_types e then added else ix)
    unfolding try_add_entity added
    try_add_entity-added = ground (
      arith,
      collect_vectors-has_all m ix.component_types e,
      component_set-components_of m ix.component_types e,
    )

    sparse-added : (j : ℕ) → sparse_at added j ≡ (if e == j then count ix else sparse_at ix j)
    unfolding added
    sparse-added j = elim (Bool-cases (leb (length ix.sparse_array) e)) [
      | inl grow ↦ rw (
        grow,
        get_or-set (resize ix.sparse_array (e + 1) invalid_index) e j (count ix) invalid_index
            (omega (arith, length-resize ix.sparse_array (e + 1) invalid_index)),
        get_or-resize_up ix.sparse_array (e + 1) j invalid_index (ground arith),
      )
      | inr fits ↦ rw (fits, get_or-set ix.sparse_array e j (count ix) invalid_index (ground arith))
    ]

    module _ (v : IsValid ix) (room : count ix < invalid_index)
        (absent : sparse_at ix e ≡ invalid_index) where
      length-added : (count added ≡ count ix + 1) × (length added.cached_components ≡ count ix + 1)
      unfolding added
      length-added = (
        omega (arith, length-append ix.matching_entities (e ∷ [])),
        omega (
          arith,
          length-append ix.cached_components (components_of m ix.component_types e ∷ []),
          v.parallel,
        ),
      )

      dense-added :
          (i : ℕ) → i ≤ count ix → dense_at added i ≡ (if i == count ix then e else dense_at ix i)
      unfolding added
      dense-added i h = ground (
        arith,
        get_or-append_end ix.matching_entities e 0,
        get_or-append_left ix.matching_entities (e ∷ []) i 0,
      )

      cached-added :
          (i : ℕ)
          → i ≤ count ix
          → get_or added.cached_components i [] ≡ (
              if i == count ix
              then components_of m ix.component_types e
              else get_or ix.cached_components i [])
      unfolding added
      cached-added i h = ground (
        arith,
        v.parallel,
        get_or-append_end ix.cached_components (components_of m ix.component_types e) [],
        get_or-append_left ix.cached_components (components_of m ix.component_types e ∷ []) i [],
      )

      added-IsValid : IsValid added
      added-IsValid = record {
        parallel = length-added.1 ∙ sym length-added.0;
        fits = omega (arith, length-added.0);
        dense_to_sparse = λ i lt. rw (dense-added i (omega (arith, length-added.0))) (
            ground (
              arith,
              length-added.0,
              sparse-added e,
              sparse-added (dense_at ix i),
              v.dense_to_sparse i,
            ));
        sparse_to_dense = λ j ne. ground (
          arith,
          length-added.0,
          sparse-added j,
          v.sparse_to_dense j,
          dense-added (sparse_at ix j),
          dense-added (count ix),
        );
      }

      view-added :
          (j : ℕ)
          → view added j
            ≡ (if e == j then some (components_of m ix.component_types e) else view ix j)
      unfolding view
      view-added j = ground (
        arith,
        length-added.0,
        sparse-added j,
        v.sparse_to_dense j,
        cached-added (sparse_at ix j),
        cached-added (count ix),
      )

  -- On a valid index that does not hold the given raw id and has room for one more entry,
  -- `tryAddEntity` gives a valid index in which the raw id stands with its components, in the order
  -- of the types, if it has all of them, and is missing if not; the other ids keep their components.
  pub view-try_add_entity :
      (ix : Index K) (e : ℕ) (m : ComponentMap K)
      → IsValid ix
      → count ix < invalid_index
      → view ix e ≡ none
      → IsValid (try_add_entity dec ix e m)
        × ((j : ℕ)
            → view (try_add_entity dec ix e m) j ≡ (
                if e == j
                then if has_all m ix.component_types e
                  then some (components_of m ix.component_types e)
                  else none
                else view ix j))
  view-try_add_entity ix e m v room none_there =
      let absent : sparse_at ix e ≡ invalid_index = unfold view in ground arith in
      elim (Bool-cases (has_all m ix.component_types e)) [
        | inl yes_all ↦
            rw (try_add_entity-added ix e m, yes_all)
              (added-IsValid ix e m v room absent, view-added ix e m v room absent)
        | inr not_all ↦ rw (try_add_entity-added ix e m, not_all) (v, λ j. ground arith)
      ]

  pub component_types-try_add_entity :
      (ix : Index K) (e : ℕ) (m : ComponentMap K)
      → (try_add_entity dec ix e m).component_types ≡ ix.component_types
  unfolding try_add_entity
  component_types-try_add_entity ix e m = ground arith

  pub count-try_add_entity :
      (ix : Index K) (e : ℕ) (m : ComponentMap K) → count (try_add_entity dec ix e m) ≤ count ix + 1
  unfolding try_add_entity
  count-try_add_entity ix e m = ground (arith, length-append ix.matching_entities (e ∷ []))
