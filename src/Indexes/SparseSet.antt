-- ===== src/Indexes/SparseSet.antt =====
-- component_indexes.h: `Index<Components...>`, a sparse set of the raw ids that have all of a list of
-- component types, with the component pointers of each.
pub mod Invariant
pub mod Remove
pub mod Add
pub mod Populate
use raccoon_ecs.Common.{
  ℕ, zero, suc, ◌+◌, ◌-◌, ◌^◌, Bool, true, false, List, [], ◌∷◌, ◌++◌, map, Option, none, some,
  length, get_or, set, resize, pop_back, back, all, leb, ltb, ◌==◌, if◌then◌else◌, not, min, ite,
  ◌||◌,
}
use raccoon_ecs.Outcome.{Ptr, nullptr}
use raccoon_ecs.ComponentMap.{ComponentMap, get_component_vector_by_id}

-- `MaxOfSizeType`, and `BaseIndex::InvalidIndex`.
unfoldable pub invalid_index : ℕ
invalid_index = 2 ^ 64 - 1

pub record Index (K : Type 0) : Type 0 where
  pub component_types : List K
  pub matching_entities : List ℕ
  pub cached_components : List (List Ptr)
  pub sparse_array : List ℕ
  pub is_populated : Bool

-- `Index()`: `Components::GetTypeId()...` is the list.
unfoldable pub make_index : {K : Type 0} → List K → Index K
make_index types = record {
  component_types = types;
  matching_entities = [];
  cached_components = [];
  sparse_array = [];
  is_populated = false;
}

module _ {K : Type 0} where
  -- `mSparseArray[entityIndex]`, and `InvalidIndex` past its end.
  abbrev pub sparse_at : Index K → ℕ → ℕ
  sparse_at ix e = get_or ix.sparse_array e invalid_index

  -- `tryRemoveEntity`: the last entry takes the place of the one that goes.
  unfoldable pub try_remove_entity : Index K → ℕ → Index K
  try_remove_entity ix e =
      let n = length ix.matching_entities in
      let idx = get_or ix.sparse_array e invalid_index in
      if ltb e (length ix.sparse_array)
      then if not (idx == invalid_index)
        then if not (idx == n - 1)
          then record ix {
            sparse_array =
                set (set ix.sparse_array (back ix.matching_entities 0) idx) e invalid_index;
            cached_components =
                pop_back (set ix.cached_components idx (back ix.cached_components []));
            matching_entities =
                pop_back (set ix.matching_entities idx (back ix.matching_entities 0));
          }
          else record ix {
            sparse_array = set ix.sparse_array e invalid_index;
            cached_components = pop_back ix.cached_components;
            matching_entities = pop_back ix.matching_entities;
          }
        else ix
      else ix

  -- `clear`
  unfoldable pub clear_index : Index K → Index K
  clear_index ix = record ix {
    is_populated = false;
    matching_entities = [];
    cached_components = [];
    sparse_array = [];
  }

-- `doesEntityHaveAllComponents`
unfoldable pub does_entity_have_all_components : List (List Ptr) → ℕ → Bool
does_entity_have_all_components vectors i = all (λ v. not (get_or v i nullptr == nullptr)) vectors

-- The first loop of `populate`: the length of the shortest vector.
unfoldable pub shortest_vector_size : List (List Ptr) → ℕ → ℕ
shortest_vector_size [] n = n
shortest_vector_size (v ∷ vs) n = shortest_vector_size vs (min n (length v))

module _ {K : Type 0} (dec : Discrete K) where
  -- `Idx<Component, Components...>`: the first place of a type in the pack.
  unfoldable pub pack_idx : K → List K → ℕ
  pack_idx k [] = 0
  pack_idx k (j ∷ js) = ite (dec j k) 0 (suc (pack_idx k js))

  -- `(*componentVectors[Idx<Components, Components...>()])[entityIndex]...`
  unfoldable pub component_set : List K → List (List Ptr) → ℕ → List Ptr
  unfolding pack_idx
  component_set types vectors e =
      map (λ k. get_or (get_or vectors (pack_idx k types) []) e nullptr) types

  -- The loop of `tryAddEntity`: `none` is its early return.
  unfoldable pub collect_vectors : ComponentMap K → List K → ℕ → Option (List (List Ptr))
  collect_vectors m [] e = some []
  collect_vectors m (k ∷ ks) e =
      let vector = get_component_vector_by_id dec m k in
      if leb (length vector) e || get_or vector e nullptr == nullptr
      then none
      else elim (collect_vectors m ks e) [ none ↦ none | some vs ↦ some (vector ∷ vs) ]

  -- `tryAddEntity`
  unfoldable pub try_add_entity : Index K → ℕ → ComponentMap K → Index K
  unfolding collect_vectors component_set
  try_add_entity ix e m = elim (collect_vectors m ix.component_types e) [
    | none ↦ ix
    | some vectors ↦
        let sparse =
          if leb (length ix.sparse_array) e
          then resize ix.sparse_array (e + 1) invalid_index
          else ix.sparse_array in
        record ix {
          sparse_array = set sparse e (length ix.matching_entities);
          cached_components =
              ix.cached_components ++ component_set ix.component_types vectors e ∷ [];
          matching_entities = ix.matching_entities ++ e ∷ [];
        }
  ]

  -- The second loop of `populate`, over the `n` raw ids from `i` on.
  unfoldable pub populate_loop : List (List Ptr) → ℕ → ℕ → Index K → Index K
  unfolding does_entity_have_all_components component_set
  populate_loop vectors zero i ix = ix
  populate_loop vectors (suc n) i ix = populate_loop vectors n (i + 1) (
      if does_entity_have_all_components vectors i
      then record ix {
        matching_entities = ix.matching_entities ++ i ∷ [];
        sparse_array = set ix.sparse_array i (length (ix.matching_entities ++ i ∷ []) - 1);
        cached_components = ix.cached_components ++ component_set ix.component_types vectors i ∷ [];
      }
      else ix)

  -- `populate`
  unfoldable pub populate : Index K → ComponentMap K → Index K
  unfolding populate_loop shortest_vector_size
  populate ix m =
      let vectors = map (get_component_vector_by_id dec m) ix.component_types in
      let size = shortest_vector_size vectors invalid_index in
      let started = record ix { is_populated = true } in
      if size == invalid_index || size == 0
      then started
      else populate_loop vectors size 0
          (record started { sparse_array = resize ix.sparse_array size invalid_index })

  -- `repopulate`
  unfoldable pub repopulate : Index K → ComponentMap K → Index K
  unfolding populate clear_index
  repopulate ix m = populate (clear_index ix) m
